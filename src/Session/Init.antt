-- ===== src/Session/Init.antt =====
-- src/common.c: `init_trace`.
use ultrasight.Common.{
  ℕ, ℤ, pos, negsuc, minus_one, of_bool, is_neg, is_nonzero, some, if◌then◌else◌,
}
use ultrasight.Machine.{
  mutex_init, cond_init, trace_mutex, trace_state_mutex, trace_event_mutex, trace_fetcher_mutex,
  trace_event_cond, trace_fetcher_cond, setup_named_board, thread_create, shutdown, ready_state,
  Env, Proc, Fn, ◌>>=◌, ◌>>◌, pure, return, return_if, when, fn, get, modify, ask, emit,
}
use ultrasight.Lifecycle.{set_trace_state}
use ultrasight.Utils.Cpu.Free.{find_free_cpu}
use ultrasight.Utils.Cpu.Preferred.{get_preferred_cpu}
use ultrasight.Utils.Sysfs.{get_udmabuf_info, get_ksight_info}
use ultrasight.Utils.Maps.Parse.{Fields}
use ultrasight.Utils.Maps.Setup.{setup_map_info}
use ultrasight.Session.Enable.{get_trace_id}

-- DEFAULT_TRACE_CPU and RANGE_MAX
abbrev pub default_trace_cpu : ℤ
default_trace_cpu = pos 0

abbrev pub range_max : ℕ
range_max = 1

-- `preferred_cpu >= 0 ? preferred_cpu : DEFAULT_TRACE_CPU`
abbrev pub cpu_or_default : ℤ → ℤ
cpu_or_default (pos n) = pos n
cpu_or_default (negsuc n) = default_trace_cpu

-- `preferred_cpu = find_free_cpu() < 0`: what is stored is the value of the comparison.
unfoldable pub fallback_cpu : Env → ℕ → Fn
fallback_cpu env fuel = do free ← find_free_cpu env fuel; pure (of_bool (is_neg free))

-- The CPU to trace, where none was asked for.
unfoldable pub choose_trace_cpu : Env → (fuel : ℕ) → ℤ → Proc (Unit {0})
unfolding fallback_cpu
choose_trace_cpu env fuel parent_pid = do
  s ← get
  when (is_neg s.trace_cpu) do
    preferred ← get_preferred_cpu env fuel parent_pid
    cpu ← if is_neg preferred then fallback_cpu env fuel else pure preferred
    modify λ t. record t { trace_cpu = cpu_or_default cpu }

unfoldable pub init_locks : Proc (Unit {0})
init_locks = do
  emit (mutex_init trace_mutex)
  emit (mutex_init trace_state_mutex)
  emit (mutex_init trace_event_mutex)
  emit (cond_init trace_event_cond)
  emit (mutex_init trace_fetcher_mutex)
  emit (cond_init trace_fetcher_cond)

-- CSAL's `setup_named_board`, which stores the board and its devices if it succeeds.
unfoldable pub setup_board : Env → Proc (Unit {0})
setup_board env = do
  s ← get
  rc ← ask env (setup_named_board s.board_name)
  return_if (is_neg rc) minus_one
  modify λ t. record t { board = some (env.board s.log); devices = env.devices s.log }

unfoldable pub create_fetcher : Env → Proc (Unit {0})
create_fetcher env = do rc ← ask env thread_create; return_if (is_nonzero rc) rc

-- `fields` are the uninitialised variables of `setup_map_info`.
unfoldable pub init_trace : Env → (fuel : ℕ) → Fields → (parent_pid pid : ℤ) → Fn
init_trace env fuel fields parent_pid pid = do
  ret ← fn do
    init_locks
    choose_trace_cpu env fuel parent_pid
    s ← get
    udmabuf ← get_udmabuf_info env s.udmabuf_num
    return_if (is_neg udmabuf) minus_one
    when s.ksight_on do ksight ← get_ksight_info env; return_if (is_neg ksight) minus_one
    count ← setup_map_info env fuel fields pid range_max
    modify λ t. record t { range_count = count }
    return_if (is_neg count) minus_one
    setup_board env
    when s.fetcher_on (create_fetcher env)
    u ← get
    modify λ t. record t { trace_id = get_trace_id u.trace_cpu }
    return_if (is_neg (get_trace_id u.trace_cpu)) (if s.fetcher_on then pos 0 else minus_one)
    set_trace_state ready_state
    return (pos 0)
  when (is_nonzero ret) (emit shutdown)
  pure ret
