-- ===== src/Session/Fini/Order.antt =====
-- The order in which `fini_trace` takes a session down.
use ultrasight.Common.{ℕ, zero, suc, ◌≤◌, ltb, ℤ, ◌≡◌, refl, none, some, List, arith}
use ultrasight.Machine.{
  Env, Machine, get_trace_data, mutex_lock, mutex_unlock, mutex_destroy, cond_broadcast,
  cond_destroy, thread_join, fwrite, munmap, shutdown, fini_state, after,
}
use ultrasight.Machine.Order.Level.{level, Climbs-stay, Climbs-when_in}
use ultrasight.Machine.Order.{
  Phases, stage, Climbs, Climbs->>, Climbs->>=, Climbs-from, Climbs-get, Climbs-when, Climbs-emit,
}
use ultrasight.Lifecycle.{set_trace_state, signal_transition, signal_trace_event}
use ultrasight.Buffer.Memory.{remain}
use ultrasight.Buffer.Trace.{
  fetch_trace, grow_trace_buf, double_trace_buf, read_trace, export_trace, free_trace_buf,
}
use ultrasight.Buffer.Ksight.{
  fetch_ksight_events, read_all_events, read_events, double_ksight_buf, export_ksight,
  free_ksight_buf,
}
use ultrasight.Utils.Dump.{dump_map_info}
use ultrasight.Session.Fini.{
  fini_trace, last_fetch, finish_ksight, dump_ranges, destroy_locks, default_trace_name,
  default_ksight_name,
}

-- The locked work and the last fetch, the exports, the buffers' release, CSAL's shutdown, and the end of
-- the locks.
abbrev pub fini_phase : Phases
fini_phase (mutex_lock m) = some 0
fini_phase (mutex_unlock m) = some 0
fini_phase (cond_broadcast c) = some 0
fini_phase (get_trace_data d addr size) = some 0
fini_phase thread_join = some 0
fini_phase (fwrite file content) = some 1
fini_phase (munmap addr size) = some 2
fini_phase shutdown = some 3
fini_phase (mutex_destroy m) = some 4
fini_phase (cond_destroy c) = some 4
fini_phase _ = none

grow-Climbs : (env : Env) (fuel len : ℕ) → Climbs fini_phase 0 0 (grow_trace_buf env fuel len)
unfolding grow_trace_buf double_trace_buf
grow-Climbs env zero len = record { climbs = λ s w. w }
grow-Climbs env (suc fuel) len = record {
  climbs = λ s.
      let round : Climbs fini_phase 0 0 (double_trace_buf env) = search level depth 20 in
      (Climbs-when_in (ltb (remain s.trace_buf) len)
          (Climbs-stay round (grow-Climbs env fuel len) (omega arith))).climbs
        s;
}

fetch-Climbs : (env : Env) → Climbs fini_phase 0 0 (fetch_trace env)
unfolding fetch_trace read_trace
fetch-Climbs env = search (level, grow-Climbs) depth 40

state-Climbs : Climbs fini_phase 0 0 (set_trace_state fini_state)
unfolding set_trace_state signal_transition signal_trace_event
state-Climbs = search level depth 40

last_fetch-Climbs : (env : Env) → Climbs fini_phase 0 0 (last_fetch env)
unfolding last_fetch
last_fetch-Climbs env = search (level, fetch-Climbs, state-Climbs) depth 20

export-Climbs : (env : Env) (name : List ℕ) → Climbs fini_phase 1 1 (export_trace env name)
unfolding export_trace
export-Climbs env name = search level depth 40

read_events-Climbs : (env : Env) (fd : ℤ) → Climbs fini_phase 1 1 (read_events env fd)
unfolding read_events double_ksight_buf
read_events-Climbs env fd = search level depth 40

events-Climbs :
    (env : Env) (fuel : ℕ) (fd : ℤ) → Climbs fini_phase 1 1 (read_all_events env fuel fd)
unfolding read_all_events
events-Climbs env zero fd = record { climbs = λ s w. w }
events-Climbs env (suc fuel) fd = record {
  climbs = λ s.
      (Climbs-stay (read_events-Climbs env fd) (events-Climbs env fuel fd) (omega arith)).climbs s;
}

fetch_ksight-Climbs : (env : Env) (fuel : ℕ) → Climbs fini_phase 1 1 (fetch_ksight_events env fuel)
unfolding fetch_ksight_events
fetch_ksight-Climbs env fuel = search (level, events-Climbs) depth 40

export_ksight-Climbs : (env : Env) (name : List ℕ) → Climbs fini_phase 1 1 (export_ksight env name)
unfolding export_ksight
export_ksight-Climbs env name = search level depth 40

le_0_1 : 0 ≤ 1
le_0_1 = omega arith

le_3_4 : 3 ≤ 4
le_3_4 = omega arith

le_1_2 : 1 ≤ 2
le_1_2 = omega arith

free_ksight-Climbs : Climbs fini_phase 1 2 free_ksight_buf
unfolding free_ksight_buf
free_ksight-Climbs = Climbs-from le_1_2 (search level depth 20)

finish-Climbs : (env : Env) (fuel : ℕ) → Climbs fini_phase 1 2 (finish_ksight env fuel)
unfolding finish_ksight
finish-Climbs env fuel = Climbs->>= le_1_2 Climbs-get (λ s. Climbs-when s.ksight_on le_1_2 (
    Climbs->>= le_1_2 (fetch_ksight-Climbs env fuel) (λ _.
      Climbs->>= le_1_2 (export_ksight-Climbs env default_ksight_name) (λ _. free_ksight-Climbs))))

free_trace-Climbs : Climbs fini_phase 2 2 free_trace_buf
unfolding free_trace_buf
free_trace-Climbs = search level depth 20

dump-Climbs : (env : Env) → Climbs fini_phase 2 2 (dump_ranges env)
unfolding dump_ranges dump_map_info
dump-Climbs env = search level depth 20

locks-Climbs : Climbs fini_phase 4 4 destroy_locks
unfolding destroy_locks
locks-Climbs = search level depth 20

fini-Climbs : (env : Env) (fuel : ℕ) → Climbs fini_phase 0 4 (fini_trace env fuel)
unfolding fini_trace
fini-Climbs env fuel =
    Climbs->> 0 (last_fetch-Climbs env)
      (Climbs-from le_0_1 (
        Climbs->>= (omega arith) (export-Climbs env default_trace_name) (λ _.
          Climbs->> 2 (finish-Climbs env fuel)
            (Climbs->> 2 (dump-Climbs env)
              (Climbs->> 2 free_trace-Climbs
                (Climbs->> 3 (Climbs-emit (omega arith) refl) (Climbs-from le_3_4 locks-Climbs)
                  (omega arith))
                (omega arith))
              (omega arith))
            (omega arith))))
      (omega arith)

-- Whatever is answered, `fini_trace` takes the session down in order: the locks are used and the last
-- trace is fetched before anything is exported, all is exported before a buffer is unmapped, the buffers
-- are unmapped before CSAL is shut down, and the locks are destroyed last. What is printed to a stream has no
-- place in the order. (If the log's calls come in
-- these phases and have not left the first, the log's after it come in these phases.)
pub fini_trace-ordered :
    (env : Env) (fuel : ℕ) (s : Machine)
    → stage fini_phase s.log ≡ some 0
    → (k : ℕ) × (stage fini_phase (after (fini_trace env fuel s)).log ≡ some k) × (k ≤ 4)
fini_trace-ordered env fuel s h = (fini-Climbs env fuel).climbs s (0, h, omega arith)
