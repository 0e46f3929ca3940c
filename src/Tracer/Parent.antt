-- ===== src/Tracer/Parent.antt =====
-- src/cs-trace.c: `parent`.
pub mod Reports
use ultrasight.Common.{
  ℕ, zero, suc, ◌+◌, ℤ, pos, is_neg, Bool, true, false, ◌&&◌, List, get_or, ◌==◌, if◌then◌else◌,
}
use ultrasight.Machine.{
  waitpid, ptrace_detach, get_pid, Env, Machine, Flow, Proc, fault, bind, ◌>>=◌, ◌>>◌, pure, when,
  get, ask, ask_out, emit,
}
use ultrasight.Lifecycle.{trace_suspend_callback, trace_resume_callback}
use ultrasight.Utils.Sysfs.{ksight_set_traced_pid, ksight_set_enable}
use ultrasight.Utils.Maps.Parse.{Fields}
use ultrasight.Session.Init.{init_trace}
use ultrasight.Session.Start.{start_trace, stop_trace}
use ultrasight.Session.Fini.{fini_trace}
use ultrasight.Tracer.Status.{
  sigtrap, sigcont, sigstop, wifexited, wifcontinued, wifstopped, wstopsig,
}

-- A failed waitpid leaves the status word as it was; `out` has the word as its one element.
abbrev pub new_status : ℤ → List ℕ → ℕ → ℕ
new_status rc word old = if is_neg rc then old else get_or word 0 old

-- The exit of the child with status 0, up to `fini_trace`; first the end of the tags.
unfoldable pub close_tags : Env → Proc (Unit {0})
close_tags env = do
  s ← get
  when s.ksight_on
      do _ ← ksight_set_enable env (pos 0); _ ← ksight_set_traced_pid env (pos 0); pure tt

unfoldable pub close_child : Env → Proc (Unit {0})
unfolding close_tags
close_child env = do close_tags env; _ ← stop_trace env true; pure tt

unfoldable pub child_done : Env → (fuel : ℕ) → Proc (Unit {0})
unfolding close_child
child_done env fuel = do close_child env; fini_trace env fuel

-- A stop of the child.
unfoldable pub child_stopped : Env → ℕ → Proc (Unit {0})
child_stopped env sig = do
  s ← get
  when s.fetcher_on (
      if sig == sigstop
      then trace_suspend_callback
      else if sig == sigcont
      then trace_resume_callback
      else pure tt)

-- One status word; `true` is the `break` from the loop.
unfoldable pub handle_status : Env → (fuel : ℕ) → ℕ → Proc Bool
unfolding child_done child_stopped
handle_status env fuel wstatus =
    if wifexited wstatus
    then (if wstatus == 0 then child_done env fuel >> pure true else pure false)
    else if wifcontinued wstatus
    then pure false
    else if wifstopped wstatus
    then child_stopped env (wstopsig wstatus) >> pure false
    else pure false

-- while (1), from the status word of the round before; without rounds left the model faults.
unfoldable pub wait_loop : Env → (fuel rounds : ℕ) → ℤ → ℕ → Proc ℕ
wait_loop env fuel zero pid wstatus s = fault s
wait_loop env fuel (suc rounds) pid wstatus s = bind (ask_out env (waitpid pid) s) λ (rc, word).
    let w = new_status rc word wstatus in
    let more = wait_loop env fuel rounds pid w in
    handle_status env fuel w >>= λ leave. if leave then pure w else more

-- The child has stopped at its exec: the trace is set up, and the child let go.
unfoldable pub launch : Env → (fuel : ℕ) → Fields → ℤ → Proc (Unit {0})
launch env fuel fields pid = do
  parent_pid ← ask env get_pid
  _ ← init_trace env fuel fields parent_pid pid
  _ ← start_trace env pid true
  s ← get
  when s.ksight_on do _ ← ksight_set_traced_pid env pid; _ ← ksight_set_enable env (pos 1); pure tt
  emit (ptrace_detach pid)

-- `parent`; the result is the final status word. `wstatus` and `fields` are variables that the code
-- does not initialise.
unfoldable pub parent : Env → (fuel rounds : ℕ) → Fields → ℕ → ℤ → Proc ℕ
unfolding wait_loop launch
parent env fuel rounds fields wstatus pid = do
  (rc, word) ← ask_out env (waitpid pid)
  let w = new_status rc word wstatus
  when (wifstopped w && wstopsig w == sigtrap) (launch env fuel fields pid)
  wait_loop env fuel rounds pid w
