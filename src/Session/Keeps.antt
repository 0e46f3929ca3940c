-- ===== src/Session/Keeps.antt =====
-- The critical sections of src/common.c, without their calls of the mutexes: what they keep.
use ultrasight.Common.{
  ℕ, zero, suc, ℤ, pos, Bool, true, false, ◌≡◌, refl, ltb, is_neg, if◌then◌else◌,
}
use ultrasight.Machine.{
  Mutex, mutex_lock, mutex_unlock, Env, Machine, Buffer, Call, usleep, reset_error_count,
  dump_config, emit, when, return, ◌>>◌, fn,
}
use ultrasight.Machine.Keeps.{
  Ignores, Keeps, keeping, if-Keeps, Keeps-when, Keeps->>, Keeps->>=, Keeps-pure, Keeps-emit,
}
use ultrasight.Config.Keeps.{
  Apart, configure_trace-Keeps, enable_trace-Keeps, disable_trace-Keeps,
  enable_trace_sinks_only-Keeps, disable_trace_sinks_only-Keeps,
}
use ultrasight.Locks.Calls.{is_tracked}
use ultrasight.Buffer.Memory.{remain}
use ultrasight.Buffer.Trace.{grow_trace_buf, double_trace_buf, read_trace, fetch_trace, growth_fuel}
use ultrasight.Session.Enable.{
  enable_first, enable_again, enable_cs_trace, try_disable, disable_tries, disable_cs_trace,
  trace_disable_trial_usleep,
}

-- A part that a session's bookkeeping does not change either.
pub record Separate {ℓ} {X : Type ℓ} (φ : Machine → X) : Type ℓ where
  pub apart : Apart φ
  pub first_lem : (s : Machine) (b : Bool) → φ (record s { is_first_trace = b }) ≡ φ s
  pub buffer_lem : (s : Machine) (b : Buffer) → φ (record s { trace_buf = b }) ≡ φ s

module _ {ℓ} {X : Type ℓ} {φ : Machine → X} (separate : Separate φ) where
  abbrev own : Apart φ
  own = separate.apart

  quiet : (c : Call) → is_tracked c ≡ false → Ignores φ c
  quiet = own.silent

  same_buffer : (s : Machine) (b : Buffer) → φ (record s { trace_buf = b }) ≡ φ s
  same_buffer = separate.buffer_lem

  same_first : (s : Machine) (b : Bool) → φ (record s { is_first_trace = b }) ≡ φ s
  same_first = separate.first_lem

  enable_first-Keeps : (env : Env) (pid : ℤ) → Keeps φ (enable_first env pid)
  unfolding enable_first
  enable_first-Keeps env pid =
      search (keeping, same_first, configure_trace-Keeps own, enable_trace-Keeps own) depth 40

  enable_again-Keeps : (env : Env) → Keeps φ (enable_again env)
  unfolding enable_again
  enable_again-Keeps env = search (keeping, enable_trace_sinks_only-Keeps own) depth 20

  pub enable_body-Keeps :
      (env : Env) (pid : ℤ) (first export : Bool)
      → Keeps φ (
          fn (
            (if first then enable_first env pid else enable_again env)
            >> (when export (emit dump_config) >> return (pos 0))))
  enable_body-Keeps env pid first export =
      search (keeping, quiet, enable_first-Keeps, enable_again-Keeps) depth 20

  pub try_disable-Keeps : (env : Env) (all : Bool) → Keeps φ (try_disable env all)
  unfolding try_disable
  try_disable-Keeps env true = record { keeps = λ s. (disable_trace-Keeps own env s.board).keeps s }
  try_disable-Keeps env false = disable_trace_sinks_only-Keeps own env

  pub disable_tries-Keeps :
      (env : Env) (all : Bool) (tries : ℕ) (ret : ℤ) → Keeps φ (disable_tries env all tries ret)
  unfolding disable_tries
  disable_tries-Keeps env all zero ret = record { keeps = λ s. refl }
  disable_tries-Keeps env all (suc tries) ret = record {
    keeps = λ s.
        (Keeps->>= (try_disable-Keeps env all) (λ r.
            if-Keeps (is_neg r)
              (Keeps->> (Keeps-emit (quiet (usleep trace_disable_trial_usleep) refl)) (
                Keeps->> (Keeps-emit (quiet reset_error_count refl))
                  (disable_tries-Keeps env all tries r)))
              Keeps-pure)).keeps
          s;
  }

  grow-Keeps : (env : Env) (fuel len : ℕ) → Keeps φ (grow_trace_buf env fuel len)
  unfolding grow_trace_buf double_trace_buf
  grow-Keeps env zero len = record { keeps = λ s. refl }
  grow-Keeps env (suc fuel) len = record {
    keeps = λ s.
        let round : Keeps φ (double_trace_buf env) =
          search (keeping, quiet, same_buffer) depth 20 in
        (Keeps-when (ltb (remain s.trace_buf) len) (Keeps->> round (grow-Keeps env fuel len))).keeps
          s;
  }

  read-Keeps : (env : Env) → Keeps φ (read_trace env)
  unfolding read_trace
  read-Keeps env = search (keeping, quiet, same_buffer) depth 20

  pub fetch_body-Keeps :
      (env : Env) (len : ℕ) → Keeps φ (fn (grow_trace_buf env growth_fuel len >> read_trace env))
  fetch_body-Keeps env len = search (keeping, grow-Keeps, read-Keeps) depth 20

  -- Where the mutexes do not count either.
  module _ (lock_lem : (m : Mutex) → Ignores φ (mutex_lock m))
      (unlock_lem : (m : Mutex) → Ignores φ (mutex_unlock m)) where
    pub enable_cs_trace-Keeps : (env : Env) (pid : ℤ) → Keeps φ (enable_cs_trace env pid)
    unfolding enable_cs_trace
    enable_cs_trace-Keeps env pid =
        search (keeping, quiet, lock_lem, unlock_lem, enable_body-Keeps) depth 20

    pub disable_cs_trace-Keeps : (env : Env) (all : Bool) → Keeps φ (disable_cs_trace env all)
    unfolding disable_cs_trace
    disable_cs_trace-Keeps env all =
        search (keeping, lock_lem, unlock_lem, disable_tries-Keeps) depth 20

    pub fetch_trace-Keeps : (env : Env) → Keeps φ (fetch_trace env)
    unfolding fetch_trace
    fetch_trace-Keeps env =
        search (keeping, quiet, lock_lem, unlock_lem, fetch_body-Keeps, same_buffer) depth 20
