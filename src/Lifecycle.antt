-- ===== src/Lifecycle.antt =====
-- src/common.c: `signal_trace_event`, `set_trace_state` and the two callbacks.
pub mod Table
use ultrasight.Common.{ℕ, Bool, ◌&&◌, ◌==◌, if◌then◌else◌}
use ultrasight.Machine.{
  TraceState, init_state, fini_state, ready_state, running_state, suspended_state, TraceEvent,
  init_event, fini_event, start_event, stop_event, suspend_event, resume_event, mutex_lock,
  mutex_unlock, cond_broadcast, trace_state_mutex, trace_event_mutex, trace_event_cond, Machine,
  Proc, ◌>>=◌, ◌>>◌, pure, get, modify, emit,
}

-- The number that C gives a state.
abbrev pub number : TraceState → ℕ
number init_state = 0
number fini_state = 1
number ready_state = 2
number running_state = 3
number suspended_state = 4

infix 50 ◌is◌
abbrev pub ◌is◌ : TraceState → TraceState → Bool
a is b = number a == number b

unfoldable pub signal_trace_event : TraceEvent → Proc (Unit {0})
signal_trace_event event = do
  emit (mutex_lock trace_event_mutex)
  modify λ s. record s { trace_event = event }
  emit (cond_broadcast trace_event_cond)
  emit (mutex_unlock trace_event_mutex)

-- The ladder of tests on the old and the new state; the last branch only prints.
unfoldable pub signal_transition : TraceState → TraceState → Proc (Unit {0})
unfolding signal_trace_event
signal_transition old_state new_state =
    if old_state is init_state
    then signal_trace_event init_event
    else if new_state is fini_state
    then signal_trace_event fini_event
    else if new_state is ready_state
    then signal_trace_event stop_event
    else if old_state is ready_state && new_state is running_state
    then signal_trace_event start_event
    else if old_state is running_state && new_state is suspended_state
    then signal_trace_event suspend_event
    else if old_state is suspended_state && new_state is running_state
    then signal_trace_event resume_event
    else pure tt

unfoldable pub set_trace_state : TraceState → Proc (Unit {0})
unfolding signal_transition
set_trace_state new_state = do
  emit (mutex_lock trace_state_mutex)
  s ← get
  modify λ t. record t { trace_state = new_state }
  signal_transition s.trace_state new_state
  emit (mutex_unlock trace_state_mutex)

unfoldable pub trace_suspend_callback : Proc (Unit {0})
unfolding set_trace_state
trace_suspend_callback = set_trace_state suspended_state

unfoldable pub trace_resume_callback : Proc (Unit {0})
unfolding set_trace_state
trace_resume_callback = set_trace_state running_state
