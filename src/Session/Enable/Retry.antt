-- ===== src/Session/Enable/Retry.antt =====
-- The tries of `disable_cs_trace`, counted by the pauses between them.
use ultrasight.Common.{
  ◌≡◌, ap, ◌⊎◌, inl, inr, Bool-cases, ℕ, zero, suc, ◌+◌, ◌<◌, ℤ, is_neg, Bool, true, false, Option,
  none, some, List, [], ◌∷◌, if◌then◌else◌, arith,
}
use ultrasight.Machine.{
  Env, Board, Machine, Flow, Call, usleep, reset_error_count, mutex_lock, mutex_unlock, trace_mutex,
  emit, pure, ◌>>◌, next, done, fault, after, value, bind,
}
use ultrasight.Machine.Keeps.{Keeps, Ignores, keeping}
use ultrasight.Config.Trace.{disable_trace, disable_source, show_source, very_verbose}
use ultrasight.Config.Etm.{show_etm_config}
use ultrasight.Config.Sinks.{
  disable_trace_sinks_only, cs_etb_flush_and_wait_stop, disable_etf, disable_tpiu_sink,
  check_errors,
}
use ultrasight.Session.Enable.Returns.{disable_cs_trace-value}
use ultrasight.Session.Enable.{
  try_disable, disable_tries, disable_cs_trace, trace_disable_trial_usleep,
}

-- How often a log pauses.
abbrev pub is_pause : Call → Bool
is_pause (usleep usec) = true
is_pause _ = false

abbrev pub pauses : List Call → ℕ
pauses [] = 0
pauses (c ∷ l) = if is_pause c then suc (pauses l) else pauses l

abbrev pub paused : Machine → ℕ
paused s = pauses s.log

pauses-silent : (c : Call) → is_pause c ≡ false → Ignores paused c
pauses-silent c h = record { ignores = λ s. rw h }

disable_trace-paused : (env : Env) (board : Option Board) → Keeps paused (disable_trace env board)
unfolding disable_trace cs_etb_flush_and_wait_stop disable_source disable_etf disable_tpiu_sink
    show_source show_etm_config check_errors
disable_trace-paused env none = search keeping
disable_trace-paused env (some board) = search (keeping, pauses-silent) depth 40

sinks_only-paused : (env : Env) → Keeps paused (disable_trace_sinks_only env)
unfolding disable_trace_sinks_only cs_etb_flush_and_wait_stop disable_etf disable_tpiu_sink
    check_errors
sinks_only-paused env = search (keeping, pauses-silent) depth 40

try-paused : (env : Env) (all : Bool) → Keeps paused (try_disable env all)
unfolding try_disable
try-paused env true = record { keeps = λ s. (disable_trace-paused env s.board).keeps s }
try-paused env false = sinks_only-paused env

-- What the tries return: a result that is no failure after fewer pauses than there were tries, or a
-- failure after one pause for each try.
abbrev pub Tried : (tries before : ℕ) → Flow ℤ → Type 0
Tried tries before (next r t) =
    (is_neg r ≡ true) × (paused t ≡ before + tries)
    ⊎ (is_neg r ≡ false) × (paused t < before + tries)
Tried tries before (done r t) = Unit {0}
Tried tries before (fault t) = Unit {0}

one_less : (tries n m : ℕ) (f : Flow ℤ) → m ≡ suc n → Tried tries m f → Tried (suc tries) n f
one_less tries n m (next r t) e (inl (neg, p)) = inl (neg, omega arith)
one_less tries n m (next r t) e (inr (ok, p)) = inr (ok, omega arith)
one_less tries n m (done r t) e h = tt
one_less tries n m (fault t) e h = tt

after_try :
    (env : Env) (all : Bool) (tries n : ℕ) (f : Flow ℤ)
    → paused (after f) ≡ n
    → ((r : ℤ) (t : Machine)
        → is_neg r ≡ true
        → Tried tries (paused t) (disable_tries env all tries r t))
    → Tried (suc tries) n (
        bind f λ r.
          if is_neg r
          then emit (usleep trace_disable_trial_usleep)
            >> (emit reset_error_count >> disable_tries env all tries r)
          else pure r)
after_try env all tries n (next r t) e ih = elim (Bool-cases (is_neg r)) [
  | inl neg ↦
      let u : Machine = record t {
        log = reset_error_count ∷ usleep trace_disable_trial_usleep ∷ t.log;
      } in
      rw neg (one_less tries n (paused u) (disable_tries env all tries r u) (ap suc e) (ih r u neg))
  | inr ok ↦ rw ok (inr (ok, omega arith))
]
after_try env all tries n (done r t) e ih = tt
after_try env all tries n (fault t) e ih = tt

tries-Tried :
    (env : Env) (all : Bool) (tries : ℕ) (ret : ℤ) (s : Machine)
    → is_neg ret ≡ true
    → Tried tries (paused s) (disable_tries env all tries ret s)
unfolding disable_tries
tries-Tried env all zero ret s h = inl (h, omega arith)
tries-Tried env all (suc tries) ret s h =
    after_try env all tries (paused s) (try_disable env all s) ((try-paused env all).keeps s)
      (λ r t neg. tries-Tried env all tries r t neg)

unlocked :
    (n : ℕ) (f : Flow ℤ)
    → Tried 8 n f
    → Tried 8 n (bind f (λ ret. emit (mutex_unlock trace_mutex) >> pure ret))
unlocked n (next r t) h = h
unlocked n (done r t) h = tt
unlocked n (fault t) h = tt

returned-Tried :
    (n : ℕ) (f : Flow ℤ) {r : ℤ}
    → Tried 8 n f
    → value f ≡ some r
    → (is_neg r ≡ true) × (paused (after f) ≡ n + 8)
      ⊎ (is_neg r ≡ false) × (paused (after f) < n + 8)
returned-Tried n (next v t) {r} h e = let same : v ≡ r = cc in rw (← same) h
returned-Tried n (done v t) h e = cc
returned-Tried n (fault t) h e = cc

returned_tries :
    (env : Env) (all : Bool) (s : Machine) {r : ℤ}
    → value (disable_cs_trace env all s) ≡ some r
    → let t = after (disable_cs_trace env all s) in
      (is_neg r ≡ true) × (paused t ≡ paused s + 8) ⊎ (is_neg r ≡ false) × (paused t < paused s + 8)
unfolding disable_cs_trace disable_tries
returned_tries env all s e =
    returned-Tried (paused s) _
      (unlocked (paused s) _ (
        after_try env all 7 (paused s) (try_disable env all locked)
          ((try-paused env all).keeps locked) (λ r t neg. tries-Tried env all 7 r t neg)))
      e
  where
    locked : Machine
    locked = record s { log = mutex_lock trace_mutex ∷ s.log }

-- Unless it prints the ETMs' configuration, `disable_cs_trace` returns: either a failure, after eight
-- tries that failed, or no failure, after fewer than eight that did. Each failed try is followed by
-- one pause, and nothing else pauses.
pub disable_cs_trace-tries :
    (env : Env) (all : Bool) (s : Machine)
    → very_verbose s.registration_verbose ≡ false
    → let t = after (disable_cs_trace env all s) in
      (r : ℤ) × (value (disable_cs_trace env all s) ≡ some r)
      × ((is_neg r ≡ true) × (paused t ≡ paused s + 8)
          ⊎ (is_neg r ≡ false) × (paused t < paused s + 8))
disable_cs_trace-tries env all s h =
    let (r, e) = disable_cs_trace-value env all s h in (r, e, returned_tries env all s e)
