-- ===== src/Files/Parent.antt =====
-- What the parent process of src/cs-trace.c has open when it is done.
use ultrasight.Common.{◌≡◌, refl, ℕ, zero, suc, ℤ, some, List, []}
use ultrasight.Machine.{Env, Machine, waitpid}
use ultrasight.Lifecycle.{trace_suspend_callback, trace_resume_callback}
use ultrasight.Utils.Sysfs.{ksight_set_enable, ksight_set_traced_pid}
use ultrasight.Utils.Maps.Parse.{Fields}
use ultrasight.Session.Init.{init_trace}
use ultrasight.Tracer.Parent.{
  parent, wait_loop, launch, handle_status, child_done, close_child, child_stopped, new_status,
}
use ultrasight.Files.{Handle, opened}
use ultrasight.Files.Uses.Handles.{using}
use ultrasight.Files.Uses.{Uses, Open, Uses-fault, Uses-pure, Uses-ask_out, then_Uses, if-Uses}
use ultrasight.Files.Utils.{quiet, write_attribute-Uses}
use ultrasight.Files.Session.{
  init_trace-Uses, start_trace-Uses, stop_trace-Uses, fini_trace-Uses, set_state-Uses,
}

module _ (env : Env) where
  set_enable-Uses : {xs : List Handle} (n : ℤ) → Uses env xs xs (ksight_set_enable env n)
  unfolding ksight_set_enable
  set_enable-Uses n = write_attribute-Uses env _ n

  set_pid-Uses : {xs : List Handle} (n : ℤ) → Uses env xs xs (ksight_set_traced_pid env n)
  unfolding ksight_set_traced_pid
  set_pid-Uses n = write_attribute-Uses env _ n

  launch-Uses : (fuel : ℕ) (f : Fields) (pid : ℤ) → Uses env [] [] (launch env fuel f pid)
  unfolding launch
  launch-Uses fuel f pid =
      search (using, quiet, init_trace-Uses, start_trace-Uses, set_enable-Uses, set_pid-Uses) depth
        40

  stopped-Uses : (sig : ℕ) → Uses env [] [] (child_stopped env sig)
  unfolding child_stopped trace_suspend_callback trace_resume_callback
  stopped-Uses sig = search (using, set_state-Uses) depth 30

  child_done-Uses : (fuel : ℕ) → Uses env [] [] (child_done env fuel)
  unfolding child_done close_child
  child_done-Uses fuel =
      search (using, set_enable-Uses, set_pid-Uses, stop_trace-Uses, fini_trace-Uses) depth 40

  status-Uses : (fuel w : ℕ) → Uses env [] [] (handle_status env fuel w)
  unfolding handle_status
  status-Uses fuel w = search (using, child_done-Uses, stopped-Uses) depth 40

  wait_loop-Uses :
      (fuel rounds : ℕ) (pid : ℤ) (w : ℕ) → Uses env [] [] (wait_loop env fuel rounds pid w)
  unfolding wait_loop
  wait_loop-Uses fuel zero pid w = Uses-fault
  wait_loop-Uses fuel (suc rounds) pid w =
      then_Uses (Uses-ask_out (quiet env (waitpid pid) refl)) (λ (rc, word).
        then_Uses (status-Uses fuel (new_status rc word w)) (λ leave.
          if-Uses leave (Uses-pure {a = new_status rc word w})
            (wait_loop-Uses fuel rounds pid (new_status rc word w))))

  parent-Uses :
      (fuel rounds : ℕ) (f : Fields) (w : ℕ) (pid : ℤ)
      → Uses env [] [] (parent env fuel rounds f w pid)
  unfolding parent
  parent-Uses fuel rounds f w pid = search (using, quiet, launch-Uses, wait_loop-Uses) depth 30

  -- Where `init_trace` returns, on whatever path: each file and directory that it opened was closed, and
  -- each was closed while it was the last one open.
  pub init_trace-Open :
      (fuel : ℕ) (f : Fields) (parent_pid pid : ℤ) (ks : List Handle) (s : Machine)
      → opened env s.log ≡ some ks
      → Open env [] ks (init_trace env fuel f parent_pid pid s)
  init_trace-Open fuel f parent_pid pid ks s h =
      (init_trace-Uses env fuel f parent_pid pid).uses ks s h

  -- Where `parent` returns, after a whole session or none, and whatever failed: each file and directory
  -- that was opened since its start was closed, and each was closed while it was the last one open.
  pub parent-Open :
      (fuel rounds : ℕ) (f : Fields) (wstatus : ℕ) (pid : ℤ) (ks : List Handle) (s : Machine)
      → opened env s.log ≡ some ks
      → Open env [] ks (parent env fuel rounds f wstatus pid s)
  parent-Open fuel rounds f wstatus pid ks s h = (parent-Uses fuel rounds f wstatus pid).uses ks s h
