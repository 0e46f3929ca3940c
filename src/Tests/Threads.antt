-- ===== src/Tests/Threads.antt =====
-- A fetch from the threshold on: the fetcher stops the child, the parent sees it, the trace is
-- collected, and the child continues.
use ultrasight.Common.{◌≡◌, ◌≢◌, refl, sym, subst, ◌+◌, ◌*◌, pos, true, false, some, none, arith}
use ultrasight.Machine.{
  Machine, for_range, fault, next, after, kill, get_buffer_rwp, suspended_state,
}
use ultrasight.Lifecycle.{
  set_trace_state, signal_transition, signal_trace_event, trace_suspend_callback,
}
use ultrasight.Buffer.Trace.{fetch_trace, grow_trace_buf, double_trace_buf, read_trace}
use ultrasight.Config.Sinks.{
  enable_trace_sinks_only, disable_trace_sinks_only, enable_tpiu, disable_tpiu_sink, enable_etf,
  disable_etf, check_errors, cs_etb_flush_and_wait_stop,
}
use ultrasight.Session.Enable.{
  enable_again, enable_cs_trace, disable_cs_trace, disable_tries, try_disable,
}
use ultrasight.Tracer.Status.{exited, sigstop, sigcont}
use ultrasight.Tracer.Parent.{handle_status, child_stopped, wait_loop}
use ultrasight.Tracer.Parent.Reports.{Passed, handle_status-Report, wait_loop-spins}
use ultrasight.Fetcher.Worker.{is_over}
use ultrasight.Fetcher.World.{
  World, Launched, idle, polling, over, awaiting_suspend, collecting, fetching, enabling, resuming,
  awaiting_resume, is_running, is_stopped, waiting, joined,
}
use ultrasight.Fetcher.Steps.{
  Steps, by_fetcher, by_main, by_child, take_stop, begin_polling, poll, stop_child, see_suspend,
  disable, fetch, enable, resume_child, report, stop_report, logged, after_continue, stay, ◌◅◌,
  ◌◅◅◌,
}
use ultrasight.Fetcher.Resume.{Steps-paused, Steps-stuck}
use ultrasight.Tests.Sample.{env, machine}

abbrev launched_world : World
launched_world = record {
  shared = machine;
  fetcher = idle;
  init_pos = 0;
  child = is_running;
  stopping = false;
  main = waiting;
  pending = none;
}

abbrev polling_world : World
polling_world = record launched_world {
  shared = logged (get_buffer_rwp 10) machine;
  init_pos = 0;
  fetcher = polling;
}

abbrev over_world : World
over_world = record polling_world {
  shared = logged (get_buffer_rwp 10) (logged (kill (pos 42) 0) polling_world.shared);
  fetcher = over;
}

abbrev signalled_world : World
signalled_world = record over_world {
  shared = logged (kill (pos 42) sigstop) over_world.shared;
  fetcher = awaiting_suspend;
  stopping = true;
}

abbrev stopped_world : World
stopped_world = record signalled_world {
  stopping = false;
  child = is_stopped;
  pending = some stop_report;
}

abbrev suspended_world : World
suspended_world = record stopped_world {
  shared = after (set_trace_state suspended_state stopped_world.shared);
  pending = none;
}

abbrev collecting_world : World
collecting_world = record suspended_world { fetcher = collecting }

abbrev disabled_world : World
disabled_world = record collecting_world {
  shared = after (disable_cs_trace env false collecting_world.shared);
  fetcher = fetching;
}

abbrev fetched_world : World
fetched_world = record disabled_world {
  shared = after (fetch_trace env disabled_world.shared);
  fetcher = enabling;
}

abbrev enabled_world : World
enabled_world = record fetched_world {
  shared = after (enable_cs_trace env (pos 42) fetched_world.shared);
  fetcher = resuming;
}

abbrev resumed_world : World
resumed_world = after_continue (record enabled_world {
  shared = logged (kill enabled_world.shared.child_pid sigcont) enabled_world.shared;
  fetcher = awaiting_resume;
})

launched : Launched launched_world
launched = record {
  event_start = refl;
  state_running = refl;
  fetcher_idle = refl;
  child_running = refl;
  main_waiting = refl;
  none_stopping = refl;
  none_pending = refl;
}

seen :
    handle_status env 0 (sigstop * 256 + 0x7f) stopped_world.shared
    ≡ next false (after (set_trace_state suspended_state stopped_world.shared))
unfolding handle_status child_stopped trace_suspend_callback set_trace_state signal_transition
    signal_trace_event
seen = refl

first_half : Steps env 0 1 launched_world collecting_world
unfolding is_over set_trace_state signal_transition signal_trace_event
first_half =
    by_fetcher launched_world polling_world (begin_polling launched_world refl refl)
    ◅ by_fetcher polling_world over_world (poll polling_world true refl (λ e. cc) refl)
    ◅ by_fetcher over_world signalled_world (stop_child over_world refl (λ e. cc))
    ◅ by_child signalled_world stopped_world (take_stop signalled_world refl refl)
    ◅ by_main stopped_world suspended_world
        (report stopped_world (sigstop * 256 + 0x7f) _ _ refl refl (λ e. omega arith) seen)
    ◅ by_fetcher suspended_world collecting_world (see_suspend suspended_world refl refl)
    ◅ stay collecting_world

Steps-paused_example : collecting_world.child ≢ is_running
Steps-paused_example = Steps-paused env 0 1 launched first_half refl

disabled : disable_cs_trace env false collecting_world.shared ≡ next (pos 0) disabled_world.shared
unfolding disable_cs_trace disable_tries try_disable disable_trace_sinks_only
    cs_etb_flush_and_wait_stop disable_tpiu_sink disable_etf check_errors set_trace_state
    signal_transition signal_trace_event for_range
disabled = refl

fetched : fetch_trace env disabled_world.shared ≡ next (pos 0) fetched_world.shared
unfolding disable_cs_trace disable_tries try_disable disable_trace_sinks_only
    cs_etb_flush_and_wait_stop disable_tpiu_sink disable_etf check_errors fetch_trace grow_trace_buf
    double_trace_buf read_trace set_trace_state signal_transition signal_trace_event for_range
fetched = refl

enabled : enable_cs_trace env (pos 42) fetched_world.shared ≡ next (pos 0) enabled_world.shared
unfolding disable_cs_trace disable_tries try_disable disable_trace_sinks_only
    cs_etb_flush_and_wait_stop disable_tpiu_sink disable_etf check_errors fetch_trace grow_trace_buf
    double_trace_buf read_trace enable_cs_trace enable_again enable_trace_sinks_only enable_tpiu
    enable_etf set_trace_state signal_transition signal_trace_event for_range
enabled = refl

same_child : fetched_world.shared.child_pid ≡ pos 42
unfolding disable_cs_trace disable_tries try_disable disable_trace_sinks_only
    cs_etb_flush_and_wait_stop disable_tpiu_sink disable_etf check_errors fetch_trace grow_trace_buf
    double_trace_buf read_trace set_trace_state signal_transition signal_trace_event for_range
same_child = refl

second_half : Steps env 0 1 collecting_world resumed_world
second_half =
    by_fetcher collecting_world disabled_world (disable collecting_world (pos 0) _ refl disabled)
    ◅ by_fetcher disabled_world fetched_world (fetch disabled_world (pos 0) _ refl fetched)
    ◅ by_fetcher fetched_world enabled_world (
        enable fetched_world (pos 0) _ refl (
          subst
            (λ pid.
              enable_cs_trace env pid fetched_world.shared ≡ next (pos 0) enabled_world.shared)
            (sym same_child) enabled))
    ◅ by_fetcher enabled_world resumed_world (resume_child enabled_world refl (λ e. cc))
    ◅ stay resumed_world

whole : Steps env 0 1 launched_world resumed_world
whole = first_half ◅◅ second_half

Steps-stuck_example : (resumed_world.fetcher ≡ awaiting_resume) × (resumed_world.main ≢ joined)
Steps-stuck_example = Steps-stuck env 0 1 launched whole refl (stay resumed_world)

handle_status-Report_example : Passed machine (3 * 256) (handle_status env 0 (3 * 256) machine)
handle_status-Report_example =
    handle_status-Report env 0 machine (3 * 256) (exited 3 (omega arith) refl) (λ e. omega arith)

wait_loop-spins_example : (u : Machine) × (wait_loop env 0 5 (pos 42) (3 * 256) machine ≡ fault u)
wait_loop-spins_example =
    wait_loop-spins env 0 5 (pos 42) (3 * 256) machine (exited 3 (omega arith) refl)
      (λ e. omega arith) (λ l. refl)
