-- ===== src/Session/Enable.antt =====
-- src/common.c: `get_trace_id`, `enable_cs_trace` and `disable_cs_trace`.
pub mod Returns
pub mod Retry
use ultrasight.Common.{
  ℕ, zero, suc, ◌+◌, ◌-◌, ltb, ◌%◌, ◌^◌, ℤ, pos, negsuc, minus_one, u64, is_neg, Bool, true, false,
  Option, none, some, List, get_or, if◌then◌else◌,
}
use ultrasight.Machine.{
  MapInfo, mutex_lock, mutex_unlock, trace_mutex, dump_config, shutdown, usleep, reset_error_count,
  Env, Machine, Proc, Fn, bind, ◌>>=◌, ◌>>◌, pure, return, return_if, when, fn, get, modify, emit,
}
use ultrasight.Config.Trace.{configure_trace, enable_trace, disable_trace}
use ultrasight.Config.Sinks.{enable_trace_sinks_only, disable_trace_sinks_only}
use ultrasight.Utils.Maps.Setup.{no_map}

-- 0x10 + cpu, on an int
abbrev pub get_trace_id : ℤ → ℤ
get_trace_id (pos n) = pos (0x10 + n)
get_trace_id (negsuc n) = if ltb n 0x10 then pos (0x10 - suc n) else negsuc (n - 0x10)

-- `&map_info[0]`, which is never NULL.
abbrev pub first_range : Machine → Option MapInfo
first_range s = some (get_or s.map_info 0 no_map)

-- The first time, the trace is configured and all of it enabled.
unfoldable pub enable_first : Env → ℤ → Proc (Unit {0})
enable_first env pid = do
  s ← get
  configured ← configure_trace env s.board (first_range s) (u64 pid)
  return_if (is_neg configured) minus_one
  enabled ← enable_trace env s.board
  return_if (is_neg enabled) minus_one
  modify λ t. record t { is_first_trace = false }

-- Later, only the sinks are.
unfoldable pub enable_again : Env → Proc (Unit {0})
enable_again env = do enabled ← enable_trace_sinks_only env; return_if (is_neg enabled) minus_one

unfoldable pub enable_cs_trace : Env → ℤ → Fn
enable_cs_trace env pid = do
  emit (mutex_lock trace_mutex)
  s ← get
  ret ← fn do
    if s.is_first_trace then enable_first env pid else enable_again env
    when s.export_config (emit dump_config)
    return (pos 0)
  when (is_neg ret) (emit shutdown)
  emit (mutex_unlock trace_mutex)
  pure ret

-- TRACE_DISABLE_TRIAL and TRACE_DISABLE_TRIAL_USLEEP
abbrev pub trace_disable_trial : ℕ
trace_disable_trial = 8

abbrev pub trace_disable_trial_usleep : ℕ
trace_disable_trial_usleep = 10

-- One try.
unfoldable pub try_disable : Env → Bool → Fn
try_disable env true s = disable_trace env s.board s
try_disable env false s = disable_trace_sinks_only env s

-- The tries that are left, after the last one returned `ret`: up to the first that does not fail, with
-- a pause after each that does.
unfoldable pub disable_tries : Env → Bool → (tries : ℕ) → ℤ → Fn
disable_tries env disable_all zero ret s = pure ret s
disable_tries env disable_all (suc tries) ret s = bind (try_disable env disable_all s) λ r.
    let again = do
      emit (usleep trace_disable_trial_usleep)
      emit reset_error_count
      disable_tries env disable_all tries r
    in if is_neg r then again else pure r

-- The first try is always made, so the value of `ret` before the loop is never read.
unfoldable pub disable_cs_trace : Env → Bool → Fn
disable_cs_trace env disable_all = do
  emit (mutex_lock trace_mutex)
  ret ← disable_tries env disable_all trace_disable_trial (pos 0)
  emit (mutex_unlock trace_mutex)
  pure ret
