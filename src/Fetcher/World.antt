-- ===== src/Fetcher/World.antt =====
-- The two threads of the tracer, and the child: where each stands, and what they share.
use ultrasight.Common.{◌≡◌, ℕ, Bool, false, Option, none}
use ultrasight.Machine.{Machine, start_event, running_state}
use ultrasight.Tracer.Status.{Report}

-- Where the fetcher stands: in its outer loop (`idle`), in its polling loop, past the threshold before
-- `kill(SIGSTOP)`, in `wait_trace_event(suspend_event)`, before `disable_cs_trace`, before `fetch_trace`,
-- before `enable_cs_trace`, before `kill(SIGCONT)`, in `wait_trace_event(resume_event)`, at the label `killed`, at the label `exit`, or
-- returned.
pub data FetcherAt : Type 0 where
  idle polling over awaiting_suspend collecting fetching enabling resuming awaiting_resume :
      FetcherAt
  killed leaving finished : FetcherAt

-- A zombie has died and is not waited for yet.
pub data ChildAt : Type 0 where
  is_running is_stopped is_zombie is_gone : ChildAt

-- Where `parent` stands: in its loop, before the `disable_cs_trace` of `stop_trace`, before its change to
-- the ready state, before `fini_trace`, in `pthread_join`, past it.
pub data MainAt : Type 0 where
  waiting closing readying finishing joining joined : MainAt

-- `pending` is the change of the child's state that waitpid has not reported; a later one replaces it.
-- `stopping` is a SIGSTOP that was sent to the child and has not reached it.
pub record World : Type 0 where
  pub shared : Machine
  pub fetcher : FetcherAt
  pub init_pos : ℕ
  pub child : ChildAt
  pub stopping : Bool
  pub main : MainAt
  pub pending : Option ((w : ℕ) × Report w)

-- After `launch`: the trace runs, and the fetcher has not looked yet.
pub record Launched (w : World) : Type 0 where
  pub event_start : w.shared.trace_event ≡ start_event
  pub state_running : w.shared.trace_state ≡ running_state
  pub fetcher_idle : w.fetcher ≡ idle
  pub child_running : w.child ≡ is_running
  pub main_waiting : w.main ≡ waiting
  pub none_stopping : w.stopping ≡ false
  pub none_pending : w.pending ≡ none
