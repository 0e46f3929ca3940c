-- ===== src/Session/Start.antt =====
-- src/common.c: `start_trace` and `stop_trace`.
use ultrasight.Common.{ℤ, pos, is_neg, Bool, if◌then◌else◌}
use ultrasight.Machine.{
  ready_state, running_state, Env, Fn, ◌>>=◌, ◌>>◌, pure, return, return_if, when, fn, get, modify,
}
use ultrasight.Lifecycle.{set_trace_state}
use ultrasight.Buffer.Trace.{alloc_trace_buf}
use ultrasight.Buffer.Ksight.{alloc_ksight_buf}
use ultrasight.Utils.Cpu.{set_cpu_affinity}
use ultrasight.Session.Enable.{enable_cs_trace, disable_cs_trace}

-- The results of the allocations are not read.
unfoldable pub start_trace : Env → ℤ → Bool → Fn
start_trace env pid use_pid_trace = fn do
  s ← get
  bound ← set_cpu_affinity env s.trace_cpu pid
  return_if (is_neg bound) bound
  _ ← alloc_trace_buf env
  when s.ksight_on (alloc_ksight_buf env >> pure tt)
  modify λ t. record t { child_pid = pid }
  ret ← enable_cs_trace env (if use_pid_trace then pid else pos 0)
  return_if (is_neg ret) ret
  set_trace_state running_state
  return ret

unfoldable pub stop_trace : Env → Bool → Fn
stop_trace env disable_all = fn do
  ret ← disable_cs_trace env disable_all
  return_if (is_neg ret) ret
  set_trace_state ready_state
  return ret
