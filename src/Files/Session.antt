-- ===== src/Files/Session.antt =====
-- A session closes what it opens.
use ultrasight.Common.{refl, ℕ, zero, suc, ℤ, Bool, List, []}
use ultrasight.Machine.{Env, Mutex, mutex_lock, mutex_unlock, TraceState}
use ultrasight.Machine.Keeps.{Ignores}
use ultrasight.Locks.Calls.{untracked-file}
use ultrasight.Lifecycle.{set_trace_state, signal_transition, signal_trace_event}
use ultrasight.Buffer.Trace.{alloc_trace_buf, fetch_trace, export_trace, free_trace_buf}
use ultrasight.Buffer.Ksight.{
  alloc_ksight_buf, fetch_ksight_events, read_all_events, read_events, read_once, double_ksight_buf,
  export_ksight, free_ksight_buf,
}
use ultrasight.Utils.Maps.Parse.{Fields}
use ultrasight.Session.Keeps.{
  Separate, enable_cs_trace-Keeps, disable_cs_trace-Keeps, fetch_trace-Keeps,
}
use ultrasight.Session.Enable.{enable_cs_trace, disable_cs_trace}
use ultrasight.Session.Init.{
  init_trace, init_locks, choose_trace_cpu, fallback_cpu, setup_board, create_fetcher,
}
use ultrasight.Session.Start.{start_trace, stop_trace}
use ultrasight.Session.Fini.{fini_trace, last_fetch, finish_ksight, dump_ranges, destroy_locks}
use ultrasight.Utils.Dump.{dump_map_info}
use ultrasight.Files.{Handle, open_in}
use ultrasight.Files.Uses.Handles.{using}
use ultrasight.Files.Uses.{Uses, Uses-Keeps, Uses-fault, next_Uses}
use ultrasight.Files.Utils.{quiet, get_udmabuf_info-Uses, get_ksight_info-Uses, setup_map_info-Uses}
use ultrasight.Files.Cpu.{find_free_cpu-Uses, get_preferred_cpu-Uses, set_cpu_affinity-Uses}

module _ (env : Env) where
  open_in-Separate : Separate (open_in env)
  open_in-Separate = record {
    apart = record { silent = λ c h. quiet env c (untracked-file c h); devices_lem = λ s d. refl };
    first_lem = λ s b. refl;
    buffer_lem = λ s b. refl;
  }

  lock_lem : (m : Mutex) → Ignores (open_in env) (mutex_lock m)
  lock_lem m = quiet env (mutex_lock m) refl

  unlock_lem : (m : Mutex) → Ignores (open_in env) (mutex_unlock m)
  unlock_lem m = quiet env (mutex_unlock m) refl

  enable-Uses : (pid : ℤ) → Uses env [] [] (enable_cs_trace env pid)
  enable-Uses pid = Uses-Keeps (enable_cs_trace-Keeps open_in-Separate lock_lem unlock_lem env pid)

  disable-Uses : (all : Bool) → Uses env [] [] (disable_cs_trace env all)
  disable-Uses all =
      Uses-Keeps (disable_cs_trace-Keeps open_in-Separate lock_lem unlock_lem env all)

  fetch-Uses : Uses env [] [] (fetch_trace env)
  fetch-Uses = Uses-Keeps (fetch_trace-Keeps open_in-Separate lock_lem unlock_lem env)

  alloc-Uses : {xs : List Handle} → Uses env xs xs (alloc_trace_buf env)
  unfolding alloc_trace_buf
  alloc-Uses = search (using, quiet) depth 30

  alloc_ksight-Uses : {xs : List Handle} → Uses env xs xs (alloc_ksight_buf env)
  unfolding alloc_ksight_buf
  alloc_ksight-Uses = search (using, quiet) depth 30

  export-Uses : {xs : List Handle} (name : List ℕ) → Uses env xs xs (export_trace env name)
  unfolding export_trace
  export-Uses name = search (using, quiet) depth 30

  export_ksight-Uses : {xs : List Handle} (name : List ℕ) → Uses env xs xs (export_ksight env name)
  unfolding export_ksight
  export_ksight-Uses name = search (using, quiet) depth 30

  pub set_state-Uses : (new : TraceState) → Uses env [] [] (set_trace_state new)
  unfolding set_trace_state signal_transition signal_trace_event
  set_state-Uses new = search (using, quiet) depth 30

  read_events-Uses : (fd : ℤ) → Uses env [] [] (read_events env fd)
  unfolding read_events read_once double_ksight_buf
  read_events-Uses fd = search (using, quiet) depth 30

  read_all-Uses : (fuel : ℕ) (fd : ℤ) → Uses env [] [] (read_all_events env fuel fd)
  unfolding read_all_events
  read_all-Uses zero fd = Uses-fault
  read_all-Uses (suc fuel) fd = record {
    uses = λ ks s e. (next_Uses (read_events-Uses fd) (read_all-Uses fuel fd)).uses ks s e;
  }

  fetch_ksight-Uses : {xs : List Handle} (fuel : ℕ) → Uses env xs xs (fetch_ksight_events env fuel)
  unfolding fetch_ksight_events
  fetch_ksight-Uses fuel = search (using, quiet, read_all-Uses) depth 30

  choose-Uses : (fuel : ℕ) (pid : ℤ) → Uses env [] [] (choose_trace_cpu env fuel pid)
  unfolding choose_trace_cpu fallback_cpu
  choose-Uses fuel pid = search (using, get_preferred_cpu-Uses, find_free_cpu-Uses) depth 30

  init_locks-Uses : Uses env [] [] init_locks
  unfolding init_locks
  init_locks-Uses = search (using, quiet) depth 30

  setup_board-Uses : Uses env [] [] (setup_board env)
  unfolding setup_board
  setup_board-Uses = search (using, quiet) depth 30

  create_fetcher-Uses : Uses env [] [] (create_fetcher env)
  unfolding create_fetcher
  create_fetcher-Uses = search (using, quiet) depth 30

  pub init_trace-Uses :
      (fuel : ℕ) (fields : Fields) (parent_pid pid : ℤ)
      → Uses env [] [] (init_trace env fuel fields parent_pid pid)
  unfolding init_trace
  init_trace-Uses fuel fields parent_pid pid =
      search
        (
          using, quiet, init_locks-Uses, choose-Uses, get_udmabuf_info-Uses, get_ksight_info-Uses,
          setup_map_info-Uses, setup_board-Uses, create_fetcher-Uses, set_state-Uses,
        )
        depth 60

  pub start_trace-Uses : (pid : ℤ) (own : Bool) → Uses env [] [] (start_trace env pid own)
  unfolding start_trace
  start_trace-Uses pid own =
      search
        (using, set_cpu_affinity-Uses, alloc-Uses, alloc_ksight-Uses, enable-Uses, set_state-Uses)
        depth 60

  pub stop_trace-Uses : (all : Bool) → Uses env [] [] (stop_trace env all)
  unfolding stop_trace
  stop_trace-Uses all = search (using, disable-Uses, set_state-Uses) depth 30

  last_fetch-Uses : Uses env [] [] (last_fetch env)
  unfolding last_fetch
  last_fetch-Uses = search (using, quiet, fetch-Uses, set_state-Uses) depth 30

  finish_ksight-Uses : (fuel : ℕ) → Uses env [] [] (finish_ksight env fuel)
  unfolding finish_ksight free_ksight_buf
  finish_ksight-Uses fuel = search (using, quiet, fetch_ksight-Uses, export_ksight-Uses) depth 30

  dump_ranges-Uses : Uses env [] [] (dump_ranges env)
  unfolding dump_ranges dump_map_info
  dump_ranges-Uses = search (using, quiet) depth 30

  pub fini_trace-Uses : (fuel : ℕ) → Uses env [] [] (fini_trace env fuel)
  unfolding fini_trace destroy_locks free_trace_buf
  fini_trace-Uses fuel =
      search (using, quiet, last_fetch-Uses, export-Uses, finish_ksight-Uses, dump_ranges-Uses)
        depth 60
