-- ===== src/Locks/Session.antt =====
-- The mutexes that `set_trace_state`, `enable_cs_trace`, `disable_cs_trace` and `fetch_trace` of
-- src/common.c take.
use ultrasight.Common.{◌≡◌, refl, ◌∙◌, ◌⊎◌, ℤ, pos, negsuc, Bool, some, [], ◌∷◌, u64, is_neg, arith}
use ultrasight.Machine.{
  Env, Machine, Flow, trace_mutex, mutex_lock, TraceState, mutex_unlock, trace_state_mutex,
  trace_event_mutex, cond_broadcast, trace_event_cond, shutdown, get_buffer_unread_bytes, emit,
  pure, when, ◌>>◌, next, done, fault, after, value, bind,
}
use ultrasight.Buffer.Memory.{align_up8}
use ultrasight.Lifecycle.{set_trace_state, signal_transition, signal_trace_event}
use ultrasight.Buffer.Trace.{fetch_trace}
use ultrasight.Session.Enable.{
  enable_cs_trace, disable_tries, disable_cs_trace, trace_disable_trial,
}
use ultrasight.Locks.Calls.{untracked-mutex}
use ultrasight.Locks.{held_by, held-silent}
use ultrasight.Session.Keeps.{Separate, disable_tries-Keeps, enable_body-Keeps, fetch_body-Keeps}

-- The calls of a change of state, from `s` to `t`: inside the state mutex the event is left as it was, or
-- is signalled inside the event mutex.
abbrev pub Exchanged : Machine → Machine → Type 0
Exchanged s t =
    ((t.log ≡ mutex_unlock trace_state_mutex ∷ mutex_lock trace_state_mutex ∷ s.log)
      × (t.trace_event ≡ s.trace_event))
    ⊎ (t.log
        ≡ mutex_unlock trace_state_mutex
          ∷ mutex_unlock trace_event_mutex
          ∷ cond_broadcast trace_event_cond
          ∷ mutex_lock trace_event_mutex
          ∷ mutex_lock trace_state_mutex
          ∷ s.log)

signal-Exchanged :
    (old new : TraceState) (s : Machine)
    → let t = after (signal_transition old new s) in
      ((t.log ≡ s.log) × (t.trace_event ≡ s.trace_event))
      ⊎ (t.log
          ≡ mutex_unlock trace_event_mutex
            ∷ cond_broadcast trace_event_cond
            ∷ mutex_lock trace_event_mutex
            ∷ s.log)
unfolding signal_transition signal_trace_event
signal-Exchanged old new s = ground arith

-- A change of state takes the state mutex, and where it does not leave the event as it was, the event
-- mutex inside it, in which it wakes all that wait for an event; begun with no mutex held, it ends with
-- none held.
pub set_trace_state-held :
    (new : TraceState) (s : Machine)
    → held_by s ≡ some []
    → Exchanged s (after (set_trace_state new s))
      × (held_by (after (set_trace_state new s)) ≡ some [])
unfolding set_trace_state signal_transition signal_trace_event
set_trace_state-held new s h = (ground arith, ground arith)

held-Separate : Separate held_by
held-Separate = record {
  apart = record { silent = λ c h. held-silent c (untracked-mutex c h); devices_lem = λ s d. refl };
  first_lem = λ s b. refl;
  buffer_lem = λ s b. refl;
}

-- The end of a critical section.
unlock-held :
    (f : Flow ℤ) {r : ℤ}
    → held_by (after f) ≡ some (trace_mutex ∷ [])
    → let g = bind f (λ ret. emit (mutex_unlock trace_mutex) >> pure ret) in
      value g ≡ some r → held_by (after g) ≡ some []
unlock-held (next v t) h e = ground arith
unlock-held (done v t) h e = cc
unlock-held (fault t) h e = cc

lock-held :
    (s : Machine)
    → held_by s ≡ some []
    → held_by (record s { log = mutex_lock trace_mutex ∷ s.log }) ≡ some (trace_mutex ∷ [])
lock-held s h = ground arith

-- If `disable_cs_trace` returns, begun with no mutex held, it holds none, whatever failed on the way, and
-- has taken and released them in turn.
pub disable_cs_trace-held :
    (env : Env) (all : Bool) (s : Machine) {r : ℤ}
    → held_by s ≡ some []
    → value (disable_cs_trace env all s) ≡ some r
    → held_by (after (disable_cs_trace env all s)) ≡ some []
unfolding disable_cs_trace
disable_cs_trace-held env all s h returns =
    unlock-held (disable_tries env all trace_disable_trial (pos 0) locked)
      ((disable_tries-Keeps held-Separate env all trace_disable_trial (pos 0)).keeps locked
        ∙ lock-held s h)
      returns
  where
    locked : Machine
    locked = record s { log = mutex_lock trace_mutex ∷ s.log }

shut_unlock-held :
    (f : Flow ℤ) {r : ℤ}
    → held_by (after f) ≡ some (trace_mutex ∷ [])
    → let g = bind f (λ ret.
      when (is_neg ret) (emit shutdown) >> (emit (mutex_unlock trace_mutex) >> pure ret)) in
      value g ≡ some r → held_by (after g) ≡ some []
shut_unlock-held (next (pos n) t) h e = ground arith
shut_unlock-held (next (negsuc n) t) h e = ground arith
shut_unlock-held (done v t) h e = cc
shut_unlock-held (fault t) h e = cc

-- If `enable_cs_trace` returns, begun with no mutex held, it holds none, whatever failed on the way, and
-- has taken and released them in turn.
pub enable_cs_trace-held :
    (env : Env) (pid : ℤ) (s : Machine) {r : ℤ}
    → held_by s ≡ some []
    → value (enable_cs_trace env pid s) ≡ some r
    → held_by (after (enable_cs_trace env pid s)) ≡ some []
unfolding enable_cs_trace
enable_cs_trace-held env pid s h returns =
    shut_unlock-held _
      ((enable_body-Keeps held-Separate env pid s.is_first_trace s.export_config).keeps locked
        ∙ lock-held s h)
      returns
  where
    locked : Machine
    locked = record s { log = mutex_lock trace_mutex ∷ s.log }

-- If `fetch_trace` returns, begun with no mutex held, it holds none, also where mremap failed, and has
-- taken and released them in turn.
pub fetch_trace-held :
    (env : Env) (s : Machine) {r : ℤ}
    → held_by s ≡ some []
    → value (fetch_trace env s) ≡ some r
    → held_by (after (fetch_trace env s)) ≡ some []
unfolding fetch_trace
fetch_trace-held env s h returns =
    unlock-held _ ((fetch_body-Keeps held-Separate env (u64 unread)).keeps started ∙ asked) returns
  where
    unread : ℤ
    unread = env.ret (mutex_lock trace_mutex ∷ s.log) (get_buffer_unread_bytes s.devices.etb)

    started : Machine
    started = record s {
      log = get_buffer_unread_bytes s.devices.etb ∷ mutex_lock trace_mutex ∷ s.log;
      trace_buf = record (s.trace_buf) { ptr = align_up8 s.trace_buf.ptr };
    }

    asked :
        held_by (record s {
          log = get_buffer_unread_bytes s.devices.etb ∷ mutex_lock trace_mutex ∷ s.log;
        })
        ≡ some (trace_mutex ∷ [])
    asked =
        (held-silent (get_buffer_unread_bytes s.devices.etb) refl).ignores
          (record s { log = mutex_lock trace_mutex ∷ s.log })
        ∙ lock-held s h
