-- ===== src/Session/Fini.antt =====
-- src/common.c: `fini_trace`.
pub mod Order
pub mod Record
use ultrasight.Common.{ℕ, List, codes, is_positive, if◌then◌else◌}
use ultrasight.Machine.{
  mutex_destroy, cond_destroy, trace_mutex, trace_state_mutex, trace_event_mutex,
  trace_fetcher_mutex, trace_event_cond, trace_fetcher_cond, thread_join, shutdown, fini_state, Env,
  Proc, ◌>>=◌, ◌>>◌, pure, when, get, emit,
}
use ultrasight.Lifecycle.{set_trace_state}
use ultrasight.Buffer.Trace.{fetch_trace, export_trace, free_trace_buf}
use ultrasight.Utils.Dump.{dump_map_info}
use ultrasight.Buffer.Ksight.{fetch_ksight_events, export_ksight, free_ksight_buf}

abbrev pub default_trace_name : List ℕ
default_trace_name = codes "cstrace.bin"

abbrev pub default_ksight_name : List ℕ
default_ksight_name = codes "cstrace.ksight"

-- The last of the trace: from the fetcher thread, or fetched here. What another thread does while it
-- is joined is not in this function; the module Fetcher has the two threads together.
unfoldable pub last_fetch : Env → Proc (Unit {0})
last_fetch env = do
  s ← get
  if s.fetcher_on
      then set_trace_state fini_state >> emit thread_join
      else fetch_trace env >> pure tt

unfoldable pub finish_ksight : Env → (fuel : ℕ) → Proc (Unit {0})
finish_ksight env fuel = do
  s ← get
  when s.ksight_on do
    _ ← fetch_ksight_events env fuel
    _ ← export_ksight env default_ksight_name
    free_ksight_buf

unfoldable pub dump_ranges : Env → Proc (Unit {0})
dump_ranges env = do
  s ← get
  when (is_positive s.registration_verbose) (dump_map_info env.stderr s.map_info s.range_count)

unfoldable pub destroy_locks : Proc (Unit {0})
destroy_locks = do
  emit (cond_destroy trace_fetcher_cond)
  emit (mutex_destroy trace_fetcher_mutex)
  emit (cond_destroy trace_event_cond)
  emit (mutex_destroy trace_event_mutex)
  emit (mutex_destroy trace_state_mutex)
  emit (mutex_destroy trace_mutex)

unfoldable pub fini_trace : Env → (fuel : ℕ) → Proc (Unit {0})
fini_trace env fuel = do
  last_fetch env
  _ ← export_trace env default_trace_name
  finish_ksight env fuel
  dump_ranges env
  free_trace_buf
  emit shutdown
  destroy_locks
