-- ===== src/Config/Trace/Judge.antt =====
-- The calls that switch tracing on, and whether the answers that they got are those of success: what
-- the enabling functions return agrees with it.
use ultrasight.Common.{
  ◌≡◌, refl, ◌⊎◌, inl, inr, ap, ℕ, zero, suc, ◌+◌, ℤ, pos, minus_one, is_neg, is_nonzero,
  is_positive, Bool, true, false, not, ◌&&◌, some, List, [], ◌∷◌, arith,
}
use ultrasight.Machine.{
  Env, Board, Machine, Flow, next, done, fault, Proc, Fn, Call, sink_enable, sink_etr_setup,
  sink_etf_setup, tmc_hw_fifo_enable, swstim_enable_all_ports, swstim_set_sync_repeat, error_count,
  ◌>>=◌, ◌>>◌, bind, returned, return, return_if, when, fn, get, ask, emit, for_range, after, value,
}
use ultrasight.Config.Sinks.{enable_tpiu, enable_etf, check_errors, enable_trace_sinks_only}
use ultrasight.Config.Trace.{enable_source, enable_stm, enable_etr, enable_trace}

-- The answer that stands for success, by the manual of each call whose answer is read. The answer of
-- `cs_trace_enable` on a source is not read.
abbrev pub succeeded : Call → ℤ → Bool
succeeded (sink_enable d) r = not (is_nonzero r)
succeeded (sink_etr_setup d addr size axictl) r = not (is_nonzero r)
succeeded (sink_etf_setup d mode) r = not (is_nonzero r)
succeeded (tmc_hw_fifo_enable d bufwm) r = not (is_nonzero r)
succeeded (swstim_enable_all_ports d) r = not (is_neg r)
succeeded (swstim_set_sync_repeat d n) r = not (is_neg r)
succeeded error_count r = not (is_positive r)
succeeded _ r = true

abbrev pub all_succeeded : Env → List Call → Bool
all_succeeded env [] = true
all_succeeded env (c ∷ l) = succeeded c (env.ret l c) && all_succeeded env l

module _ (env : Env) where
  -- What is known of a body that started with no failure in the log.
  abbrev Judged : Flow (Unit {0}) → Type 0
  Judged (next a t) = all_succeeded env t.log ≡ true
  Judged (done r t) =
      (r ≡ pos 0) × (all_succeeded env t.log ≡ true)
      ⊎ (r ≡ minus_one) × (all_succeeded env t.log ≡ false)
  Judged (fault t) = ⊥

  record Judges (m : Proc (Unit {0})) : Type 0 where
    judges : (s : Machine) → all_succeeded env s.log ≡ true → Judged (m s)

  bind-Judged :
      (f : Flow (Unit {0})) (k : Proc (Unit {0})) → Judged f → Judges k → Judged (bind f (λ _. k))
  bind-Judged (next a t) k h j = j.judges t h
  bind-Judged (done r t) k h j = h
  bind-Judged (fault t) k h j = h

  Judges->> : {m k : Proc (Unit {0})} → Judges m → Judges k → Judges (m >> k)
  Judges->> {m} {k} h j = record { judges = λ s g. bind-Judged (m s) k (h.judges s g) j }

  Judges-get : {f : Machine → Proc (Unit {0})} → ((s : Machine) → Judges (f s)) → Judges (get >>= f)
  Judges-get h = record { judges = λ s g. (h s).judges s g }

  Judges-emit : {c : Call} → ((r : ℤ) → succeeded c r ≡ true) → Judges (emit c)
  Judges-emit {c} h = record { judges = λ s g. rw (h (env.ret s.log c)) g }

  Judges-return : Judges (return (pos 0))
  Judges-return = record { judges = λ s g. inl (refl, g) }

  when-Judges :
      (b : Bool) {m : Proc (Unit {0})} (s : Machine)
      → Judges m
      → all_succeeded env s.log ≡ true
      → Judged (when b m s)
  when-Judges true s h g = h.judges s g
  when-Judges false s h g = g

  Judges-when : (b : Bool) {m : Proc (Unit {0})} → Judges m → Judges (when b m)
  Judges-when b h = record { judges = λ s g. when-Judges b s h g }

  -- An answer is tested, and the function left if it is that of a failure.
  tested :
      (bad good : Bool) (s t : Machine) (k : Proc (Unit {0}))
      → good ≡ not bad
      → all_succeeded env t.log ≡ good && all_succeeded env s.log
      → all_succeeded env s.log ≡ true
      → Judges k
      → Judged (bind (return_if bad minus_one t) (λ _. k))
  tested true good s t k e l g j = inr (refl, ground arith)
  tested false good s t k e l g j = j.judges t (ground arith)

  Judges-checked :
      (c : Call) (bad : ℤ → Bool) {k : Proc (Unit {0})}
      → ((r : ℤ) → succeeded c r ≡ not (bad r))
      → Judges k
      → Judges (ask env c >>= λ r. return_if (bad r) minus_one >> k)
  Judges-checked c bad {k} h j = record {
    judges = λ s g.
        let r = env.ret s.log c in
        tested (bad r) (succeeded c r) s (record s { log = c ∷ s.log }) k (h r) refl g j;
  }

  tested_last :
      (bad good : Bool) (s t : Machine)
      → good ≡ not bad
      → all_succeeded env t.log ≡ good && all_succeeded env s.log
      → all_succeeded env s.log ≡ true
      → Judged (return_if bad minus_one t)
  tested_last true good s t e l g = inr (refl, ground arith)
  tested_last false good s t e l g = ground arith

  Judges-check :
      (c : Call) (bad : ℤ → Bool)
      → ((r : ℤ) → succeeded c r ≡ not (bad r))
      → Judges (ask env c >>= λ r. return_if (bad r) minus_one)
  Judges-check c bad h = record {
    judges = λ s g.
        let r = env.ret s.log c in
        tested_last (bad r) (succeeded c r) s (record s { log = c ∷ s.log }) (h r) refl g;
  }

  for_range-Judges :
      (n i : ℕ) {body : ℕ → Proc (Unit {0})}
      → ((j : ℕ) → Judges (body j))
      → Judges (for_range n i body)
  unfolding for_range
  for_range-Judges zero i h = record { judges = λ s g. g }
  for_range-Judges (suc n) i {body} h = record {
    judges = λ s g.
        bind-Judged (body i s) (for_range n (i + 1) body) ((h i).judges s g)
          (for_range-Judges n (i + 1) h);
  }

ruleset judging = (
  Judges->>, Judges-get, Judges-emit, Judges-return, Judges-when, Judges-checked, Judges-check,
  for_range-Judges,
)

tpiu-Judges : (env : Env) → Judges env (enable_tpiu env)
unfolding enable_tpiu
tpiu-Judges env = search judging depth 12

etf-Judges : (env : Env) (i : ℕ) → Judges env (enable_etf env i)
unfolding enable_etf
etf-Judges env i = search judging depth 12

errors-Judges : (env : Env) → Judges env (check_errors env)
unfolding check_errors
errors-Judges env = search judging depth 12

source-Judges : (env : Env) (i : ℕ) → Judges env (enable_source i)
unfolding enable_source
source-Judges env i = search judging depth 12

stm-Judges : (env : Env) → Judges env (enable_stm env)
unfolding enable_stm
stm-Judges env = search judging depth 12

etr-Judges : (env : Env) (b : Board) → Judges env (enable_etr env b)
unfolding enable_etr
etr-Judges env b = search judging depth 12

ruleset parts = (tpiu-Judges, etf-Judges, errors-Judges, source-Judges, stm-Judges, etr-Judges)

-- 0 with all calls good, or -1 with one that was not.
abbrev pub Verdict : Env → Flow ℤ → Type 0
Verdict env f =
    (value f ≡ some (pos 0)) × (all_succeeded env (after f).log ≡ true)
    ⊎ (value f ≡ some minus_one) × (all_succeeded env (after f).log ≡ false)

verdict : (env : Env) (f : Flow (Unit {0})) → Judged env f → Verdict env (returned f)
verdict env (next a t) h = inl (refl, h)
verdict env (done r t) (inl (e, h)) = inl (ap some e, h)
verdict env (done r t) (inr (e, h)) = inr (ap some e, h)
verdict env (fault t) h = absurd h

record Gives (env : Env) (m : Fn) : Type 0 where
  gives : (s : Machine) → all_succeeded env s.log ≡ true → Verdict env (m s)

Gives-fn : {env : Env} {m : Proc (Unit {0})} → Judges env m → Gives env (fn m)
Gives-fn {env} {m} h = record { gives = λ s g. verdict env (m s) (h.judges s g) }

enable_trace-Gives : (env : Env) (board : Board) → Gives env (enable_trace env (some board))
unfolding enable_trace
enable_trace-Gives env board = search (Gives-fn, judging, parts) depth 20

sinks_only-Gives : (env : Env) → Gives env (enable_trace_sinks_only env)
unfolding enable_trace_sinks_only
sinks_only-Gives env = search (Gives-fn, judging, parts) depth 20

-- `enable_trace` returns 0 exactly if every answer that it reads stands for success: those of setting up
-- and enabling the sinks, of the STM's ports and their synchronisation, and of the error counter;
-- otherwise it returns -1. The answers of enabling a source are not among them. (No answer of this kind
-- in the log before it stands for a failure.)
pub enable_trace-Verdict :
    (env : Env) (board : Board) (s : Machine)
    → all_succeeded env s.log ≡ true
    → Verdict env (enable_trace env (some board) s)
enable_trace-Verdict env board s g = (enable_trace-Gives env board).gives s g

-- `enable_trace_sinks_only` returns 0 exactly if every answer that it reads stands for success: those of
-- setting up and enabling the sinks, and of the error counter; otherwise it returns -1. (No answer of
-- this kind in the log before it stands for a failure.)
pub enable_trace_sinks_only-Verdict :
    (env : Env) (s : Machine)
    → all_succeeded env s.log ≡ true
    → Verdict env (enable_trace_sinks_only env s)
enable_trace_sinks_only-Verdict env s g = (sinks_only-Gives env).gives s g
