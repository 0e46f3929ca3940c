-- ===== src/Fetcher/Steps.antt =====
-- What the threads and the child do. A step is one critical section, one wait or one signal; a poll is
-- its test of the child and its read of the sink's pointer, a report is what waitpid gives and the change
-- of state that `parent` makes of it, and the writes to ksight's attributes, which no other thread
-- reads, are one step. A signal takes effect on the child in a step of its own.
use ultrasight.Common.{
  ◌≡◌, ◌≢◌, refl, ◌⊎◌, ℕ, ◌+◌, ◌*◌, ◌<◌, ℤ, u64, Bool, true, false, Option, none, some, is_neg, ◌∷◌,
  if◌then◌else◌, arith,
}
use ultrasight.Machine.{
  Env, Machine, Call, get_buffer_rwp, kill, thread_join, start_event, stop_event, suspend_event,
  resume_event, fini_event, ready_state, fini_state, next, after,
}
use ultrasight.Lifecycle.{set_trace_state}
use ultrasight.Buffer.Trace.{fetch_trace}
use ultrasight.Session.Enable.{enable_cs_trace, disable_cs_trace}
use ultrasight.Tracer.Status.{Report, exited, signaled, stopped, continued, sigstop, sigcont}
use ultrasight.Tracer.Parent.{handle_status, close_tags}
use ultrasight.Fetcher.Worker.{is_over, leave}
use ultrasight.Fetcher.World.{
  World, idle, polling, over, awaiting_suspend, collecting, fetching, enabling, resuming,
  awaiting_resume, killed, leaving, finished, ChildAt, is_running, is_stopped, is_zombie, is_gone,
  waiting, closing, readying, finishing, joining, joined,
}

abbrev pub logged : Call → Machine → Machine
logged c s = record s { log = c ∷ s.log }

-- The position that the next read of the sink's pointer gives.
abbrev pub position : Env → Machine → ℕ
position env s = u64 (env.ret s.log (get_buffer_rwp s.devices.etb))

abbrev pub reaped : ChildAt → ChildAt
reaped is_zombie = is_gone
reaped c = c

-- The report of a stop by SIGSTOP.
abbrev pub stop_report : (w : ℕ) × Report w
stop_report = (sigstop * 256 + 0x7f, stopped sigstop (omega arith) (omega arith) refl)

-- SIGCONT, on a child that is not waited for yet: it runs again if it was stopped, and a SIGSTOP that has
-- not reached it is dropped.
abbrev pub continued_as : ChildAt → ChildAt
continued_as is_stopped = is_running
continued_as c = c

abbrev pub continued_report : ChildAt → Option ((w : ℕ) × Report w) → Option ((w : ℕ) × Report w)
continued_report is_stopped p = some (0xffff, continued refl)
continued_report _ p = p

abbrev pub after_continue : World → World
after_continue w = record w {
  child = continued_as w.child;
  pending = continued_report w.child w.pending;
  stopping = false;
}

-- `fetcher_worker` and `trace_sink_polling`. A wait goes on in a state with its event.
pub data FetcherStep (env : Env) (threshold : ℕ) : World → World → Type 0 where
  begin_polling :
      (w : World)
      → w.fetcher ≡ idle
      → w.shared.trace_event ≡ start_event
      → FetcherStep env threshold w (record w {
        shared = logged (get_buffer_rwp w.shared.devices.etb) w.shared;
        init_pos = position env w.shared;
        fetcher = polling;
      })
  quit :
      (w : World)
      → w.fetcher ≡ idle
      → w.shared.trace_event ≡ fini_event
      → FetcherStep env threshold w (record w { fetcher = finished })
  poll :
      (w : World) (reached : Bool)
      → w.fetcher ≡ polling
      → w.child ≢ is_gone
      → is_over threshold w.init_pos (position env (logged (kill w.shared.child_pid 0) w.shared))
        ≡ reached
      → FetcherStep env threshold w (record w {
        shared =
            logged
              (get_buffer_rwp w.shared.devices.etb)
              (logged (kill w.shared.child_pid 0) w.shared);
        fetcher = if reached then over else polling;
      })
  lose :
      (w : World)
      → (w.fetcher ≡ polling) ⊎ ((w.fetcher ≡ over) ⊎ (w.fetcher ≡ resuming))
      → w.child ≡ is_gone
      → FetcherStep env threshold w (record w { fetcher = killed })
  stop_child :
      (w : World)
      → w.fetcher ≡ over
      → w.child ≢ is_gone
      → FetcherStep env threshold w (record w {
        shared = logged (kill w.shared.child_pid sigstop) w.shared;
        fetcher = awaiting_suspend;
        stopping = true;
      })
  see_suspend :
      (w : World)
      → w.fetcher ≡ awaiting_suspend
      → w.shared.trace_event ≡ suspend_event
      → FetcherStep env threshold w (record w { fetcher = collecting })
  disable :
      (w : World) (r : ℤ) (t : Machine)
      → w.fetcher ≡ collecting
      → disable_cs_trace env false w.shared ≡ next r t
      → FetcherStep env threshold w
          (record w { shared = t; fetcher = if is_neg r then leaving else fetching })
  fetch :
      (w : World) (r : ℤ) (t : Machine)
      → w.fetcher ≡ fetching
      → fetch_trace env w.shared ≡ next r t
      → FetcherStep env threshold w
          (record w { shared = t; fetcher = if is_neg r then leaving else enabling })
  enable :
      (w : World) (r : ℤ) (t : Machine)
      → w.fetcher ≡ enabling
      → enable_cs_trace env w.shared.child_pid w.shared ≡ next r t
      → FetcherStep env threshold w
          (record w { shared = t; fetcher = if is_neg r then leaving else resuming })
  resume_child :
      (w : World)
      → w.fetcher ≡ resuming
      → w.child ≢ is_gone
      → FetcherStep env threshold w (
          after_continue (record w {
            shared = logged (kill w.shared.child_pid sigcont) w.shared;
            fetcher = awaiting_resume;
          }))
  see_resume :
      (w : World)
      → w.fetcher ≡ awaiting_resume
      → w.shared.trace_event ≡ resume_event
      → FetcherStep env threshold w (record w {
        shared = logged (get_buffer_rwp w.shared.devices.etb) w.shared;
        init_pos = position env w.shared;
        fetcher = polling;
      })
  fetch_last :
      (w : World) (r : ℤ) (t : Machine)
      → w.fetcher ≡ killed
      → (w.shared.trace_event ≡ stop_event) ⊎ (w.shared.trace_event ≡ fini_event)
      → fetch_trace env w.shared ≡ next r t
      → FetcherStep env threshold w (record w { shared = t; fetcher = leaving })
  go_idle :
      (w : World)
      → w.fetcher ≡ leaving
      → FetcherStep env threshold w (record w { shared = after (leave w.shared); fetcher = idle })

-- `parent`, from its loop to the join: the loop, `close_tags`, the two parts of `stop_trace`, and the
-- first part of `fini_trace`. A report of a dead child reaps it.
pub data MainStep (env : Env) (fuel : ℕ) : World → World → Type 0 where
  report :
      (w : World) (word : ℕ) (r : Report word) (t : Machine)
      → w.main ≡ waiting
      → w.pending ≡ some (word, r)
      → word ≢ 0
      → handle_status env fuel word w.shared ≡ next false t
      → MainStep env fuel w (record w { shared = t; child = reaped w.child; pending = none })
  close :
      (w : World) (r : Report 0)
      → w.main ≡ waiting
      → w.pending ≡ some (0, r)
      → MainStep env fuel w (record w {
        shared = after (close_tags env w.shared);
        child = reaped w.child;
        pending = none;
        main = closing;
      })
  disable_all :
      (w : World) (r : ℤ) (t : Machine)
      → w.main ≡ closing
      → disable_cs_trace env true w.shared ≡ next r t
      → MainStep env fuel w
          (record w { shared = t; main = if is_neg r then finishing else readying })
  make_ready :
      (w : World)
      → w.main ≡ readying
      → MainStep env fuel w
          (record w { shared = after (set_trace_state ready_state w.shared); main = finishing })
  finish :
      (w : World)
      → w.main ≡ finishing
      → MainStep env fuel w
          (record w { shared = after (set_trace_state fini_state w.shared); main = joining })
  join :
      (w : World)
      → w.main ≡ joining
      → w.fetcher ≡ finished
      → MainStep env fuel w (record w { shared = logged thread_join w.shared; main = joined })

-- The child is stopped by the SIGSTOP that was sent to it, ends by itself, or is killed by another signal
-- than SIGSTOP and SIGCONT.
pub data ChildStep : World → World → Type 0 where
  take_stop :
      (w : World)
      → w.child ≡ is_running
      → w.stopping ≡ true
      → ChildStep w (record w { child = is_stopped; pending = some stop_report; stopping = false })
  exit :
      (w : World) (code : ℕ) (h : code < 256)
      → w.child ≡ is_running
      → ChildStep w
          (record w { child = is_zombie; pending = some (code * 256, exited code h refl) })
  die :
      (w : World) (sig core : ℕ) (g : 0 < sig) (g' : sig < 127) (k : core < 2)
      → (w.child ≡ is_running) ⊎ (w.child ≡ is_stopped)
      → ChildStep w (record w {
        child = is_zombie;
        pending = some (sig + core * 128, signaled sig core g g' k refl);
      })

pub data Step (env : Env) (fuel threshold : ℕ) : World → World → Type 0 where
  by_fetcher : (w v : World) → FetcherStep env threshold w v → Step env fuel threshold w v
  by_main : (w v : World) → MainStep env fuel w v → Step env fuel threshold w v
  by_child : (w v : World) → ChildStep w v → Step env fuel threshold w v

infixr 40 ◌◅◌
pub data Steps (env : Env) (fuel threshold : ℕ) : World → World → Type 0 where
  stay : (w : World) → Steps env fuel threshold w w
  ◌◅◌ :
      {w u v : World}
      → Step env fuel threshold w u
      → Steps env fuel threshold u v
      → Steps env fuel threshold w v

infixr 40 ◌◅◅◌
pub ◌◅◅◌ :
    {env : Env} {fuel threshold : ℕ} {w u v : World}
    → Steps env fuel threshold w u
    → Steps env fuel threshold u v
    → Steps env fuel threshold w v
stay w ◅◅ ys = ys
(x ◅ xs) ◅◅ ys = x ◅ (xs ◅◅ ys)
