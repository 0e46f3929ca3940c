-- ===== src/Lifecycle/Table.antt =====
-- The transition table that the comment in `set_trace_state` prints, and the code against it.
use ultrasight.Common.{◌≡◌, ◌≢◌, ◌⊎◌, arith}
use ultrasight.Machine.{
  TraceState, init_state, fini_state, ready_state, running_state, suspended_state, TraceEvent,
  init_event, fini_event, start_event, stop_event, suspend_event, resume_event, Machine, after,
}
use ultrasight.Lifecycle.{set_trace_state}

-- The rows of the table, read in order: a row stands only where none above it does.
pub data Signals : TraceState → TraceState → TraceEvent → Type 0 where
  from_init : (new : TraceState) → Signals init_state new init_event
  to_fini : (old : TraceState) → old ≢ init_state → Signals old fini_state fini_event
  to_ready : (old : TraceState) → old ≢ init_state → Signals old ready_state stop_event
  set_off : Signals ready_state running_state start_event
  suspend : Signals running_state suspended_state suspend_event
  resume : Signals suspended_state running_state resume_event

-- The transitions that the table leaves out.
pub data Unexpected : TraceState → TraceState → Type 0 where
  restart : Unexpected running_state running_state
  revive : Unexpected fini_state running_state
  suspend_idle :
      (old : TraceState) → old ≢ init_state → old ≢ running_state → Unexpected old suspended_state
  to_init : (old : TraceState) → old ≢ init_state → Unexpected old init_state

ruleset rows = (from_init, to_fini, to_ready, set_off, suspend, resume)

ruleset gaps = (restart, revive, suspend_idle, to_init)

-- Whatever the old and the new state, the new one is stored; either the table has a row for the
-- pair, and its event is the current event afterwards, or it has none, and the event stays.
pub set_trace_state-Signals :
    (new : TraceState) (s : Machine)
    → let t = after (set_trace_state new s) in
      (t.trace_state ≡ new)
      × (Signals s.trace_state new t.trace_event
          ⊎ (Unexpected s.trace_state new × (t.trace_event ≡ s.trace_event)))
unfolding set_trace_state
set_trace_state-Signals new s = grind (arith, rows, gaps)
