-- ===== src/Session/Enable/Returns.antt =====
-- `disable_cs_trace` returns, unless it prints the configuration of an ETMv4.
use ultrasight.Common.{
  ℕ, zero, suc, ℤ, pos, is_neg, Bool, true, false, ◌≡◌, refl, ap, ◌∙◌, inl, inr, Bool-cases, Option,
  none, some, ◌∷◌, if◌then◌else◌,
}
use ultrasight.Machine.{
  Env, Machine, Flow, Board, usleep, reset_error_count, mutex_lock, mutex_unlock, trace_mutex, emit,
  pure, ◌>>◌, next, done, fault, after, value, bind,
}
use ultrasight.Machine.Total.{totality, Answers, Answers-fn, Answers-get, Total-when_off}
use ultrasight.Config.Trace.{disable_trace, disable_source, very_verbose}
use ultrasight.Config.Sinks.{
  disable_trace_sinks_only, cs_etb_flush_and_wait_stop, disable_etf, disable_tpiu_sink,
  check_errors,
}
use ultrasight.Session.Keeps.{Separate, try_disable-Keeps}
use ultrasight.Session.Enable.{
  try_disable, disable_tries, disable_cs_trace, trace_disable_trial_usleep, trace_disable_trial,
}

abbrev pub verbosity : Machine → ℤ
verbosity s = s.registration_verbose

-- `f` returns, and leaves the verbosity as it was.
abbrev Returns : ℤ → Flow ℤ → Type 0
Returns v f = ((r : ℤ) × (value f ≡ some r)) × (verbosity (after f) ≡ v)

verbosity-Separate : Separate verbosity
verbosity-Separate = record {
  apart = record { silent = λ c h. record { ignores = λ s. refl }; devices_lem = λ s d. refl };
  first_lem = λ s b. refl;
  buffer_lem = λ s b. refl;
}

abbrev IsQuiet : Machine → Type 0
IsQuiet s = very_verbose (verbosity s) ≡ false

sinks_only-Answers : (env : Env) → Answers IsQuiet (disable_trace_sinks_only env)
unfolding disable_trace_sinks_only cs_etb_flush_and_wait_stop disable_etf disable_tpiu_sink
    check_errors
sinks_only-Answers env = search (Answers-fn, totality) depth 30

all-Answers : (env : Env) (board : Option Board) → Answers IsQuiet (disable_trace env board)
unfolding disable_trace cs_etb_flush_and_wait_stop disable_source disable_etf disable_tpiu_sink
    check_errors
all-Answers env none = search (Answers-fn, totality)
all-Answers env (some board) = search (Answers-get, totality, Total-when_off) depth 30

try-Returns :
    (env : Env) (all : Bool) (s : Machine)
    → very_verbose (verbosity s) ≡ false
    → Returns (verbosity s) (try_disable env all s)
unfolding try_disable
try-Returns env true s h =
    ((all-Answers env s.board).answers s h, (try_disable-Keeps verbosity-Separate env true).keeps s)
try-Returns env false s h =
    ((sinks_only-Answers env).answers s h, (try_disable-Keeps verbosity-Separate env false).keeps s)

-- One try, and what the loop does with its result.
after_try :
    (env : Env) (all : Bool) (tries : ℕ) (f : Flow ℤ) {v : ℤ}
    → Returns v f
    → ((r : ℤ) (t : Machine)
        → verbosity t ≡ v
        → (q : ℤ) × (value (disable_tries env all tries r t) ≡ some q))
    → (q : ℤ) × (value (
          bind f λ r.
            if is_neg r
            then emit (usleep trace_disable_trial_usleep)
              >> (emit reset_error_count >> disable_tries env all tries r)
            else pure r)
        ≡ some q)
after_try env all tries (next r t) (e, same) ih = elim (Bool-cases (is_neg r)) [
  | inl neg ↦
      rw neg (
        ih r (record t { log = reset_error_count ∷ usleep trace_disable_trial_usleep ∷ t.log })
          same)
  | inr ok ↦ rw ok (r, refl)
]
after_try env all tries (done r t) ((q, e), same) ih = cc
after_try env all tries (fault t) ((q, e), same) ih = cc

tries-value :
    (env : Env) (all : Bool) (tries : ℕ) (ret : ℤ) (s : Machine)
    → very_verbose (verbosity s) ≡ false
    → (q : ℤ) × (value (disable_tries env all tries ret s) ≡ some q)
unfolding disable_tries
tries-value env all zero ret s h = (ret, refl)
tries-value env all (suc tries) ret s h =
    after_try env all tries (try_disable env all s) (try-Returns env all s h)
      (λ r t same. tries-value env all tries r t (ap very_verbose same ∙ h))

unlock-value :
    (f : Flow ℤ)
    → ((q : ℤ) × (value f ≡ some q))
    → (q : ℤ) × (value (bind f (λ ret. emit (mutex_unlock trace_mutex) >> pure ret)) ≡ some q)
unlock-value (next r t) e = (r, refl)
unlock-value (done r t) (q, e) = cc
unlock-value (fault t) (q, e) = cc

pub disable_cs_trace-value :
    (env : Env) (all : Bool) (s : Machine)
    → very_verbose s.registration_verbose ≡ false
    → (q : ℤ) × (value (disable_cs_trace env all s) ≡ some q)
unfolding disable_cs_trace
disable_cs_trace-value env all s h = unlock-value _ (
    tries-value env all trace_disable_trial (pos 0)
      (record s { log = mutex_lock trace_mutex ∷ s.log }) h)
