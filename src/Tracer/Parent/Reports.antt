-- ===== src/Tracer/Parent/Reports.antt =====
-- What the parent of src/cs-trace.c does with each report of the kernel.
use ultrasight.Common.{
  ◌≡◌, ◌≢◌, refl, ◌∙◌, ap, ◌⊎◌, inl, inr, ℕ, zero, suc, ◌+◌, ◌*◌, ◌≤◌, ◌<◌, ℤ, is_neg, Bool, true,
  false, List, ◌∷◌, ◌==◌, if◌then◌else◌, Bool-cases, arith,
}
use ultrasight.Machine.{
  Env, Machine, Flow, Call, TraceState, suspended_state, waitpid, Proc, when, next, fault, after,
  bind, ◌>>◌, pure,
}
use ultrasight.Lifecycle.{set_trace_state, trace_suspend_callback}
use ultrasight.Tracer.Status.{
  wifexited, wifcontinued, wifstopped, wstopsig, Report, exited, signaled, stopped, continued,
  sigstop, sigcont,
}
use ultrasight.Tracer.Parent.{handle_status, wait_loop, child_stopped}

-- What is left of a status word that does not end the loop.
abbrev pub Passed : Machine → ℕ → Flow Bool → Type 0
Passed s w f =
    (t : Machine) × (f ≡ next false t)
    × ((t ≡ s)
        ⊎ ((w ≡ sigstop * 256 + 0x7f)
            × (s.fetcher_on ≡ true)
            × (t ≡ after (set_trace_state suspended_state s))))

passed_exit :
    (env : Env) (fuel : ℕ) (s : Machine) (code : ℕ)
    → 0 < code
    → handle_status env fuel (code * 256) s ≡ next false s
unfolding handle_status
passed_exit env fuel s code c =
    let a : wifexited (code * 256) ≡ true = ground arith in
    let b : ((code * 256) == 0) ≡ false = ground arith in rw (a, b)

passed_signal :
    (env : Env) (fuel : ℕ) (s : Machine) (sig core : ℕ)
    → 0 < sig
    → sig < 127
    → core < 2
    → handle_status env fuel (sig + core * 128) s ≡ next false s
unfolding handle_status
passed_signal env fuel s sig core g g' k =
    let d : wifexited (sig + core * 128) ≡ false = ground arith in
    let e : wifcontinued (sig + core * 128) ≡ false = ground arith in
    let f : wifstopped (sig + core * 128) ≡ false = ground arith in rw (d, e, f)

set_trace_state-next :
    (new : TraceState) (s : Machine)
    → set_trace_state new s ≡ next tt (after (set_trace_state new s))
unfolding set_trace_state
set_trace_state-next new s = ground arith

when-on : (b : Bool) (m : Proc (Unit {0})) (s : Machine) → b ≡ true → when b m s ≡ m s
when-on true m s e = refl
when-on false m s e = cc

if-on : (b : Bool) (m k : Proc (Unit {0})) (s : Machine) → b ≡ true → (if b then m else k) s ≡ m s
if-on true m k s e = refl
if-on false m k s e = cc

stop_passes :
    (env : Env) (s : Machine) (sig : ℕ)
    → 19 ≤ sig
    → sig ≤ 22
    → Passed s (sig * 256 + 0x7f) ((child_stopped env sig >> pure false) s)
unfolding child_stopped trace_suspend_callback
stop_passes env s sig lo hi = elim (Bool-cases s.fetcher_on) [
  | inr off ↦ (s, rw off, inl refl)
  | inl on ↦ elim (Bool-cases (sig == sigstop)) [
    | inl e ↦
        let same : sig ≡ sigstop = ground arith in
        (
          after (set_trace_state suspended_state s),
          ap (λ f. bind f (λ _. pure false))
              (when-on s.fetcher_on _ s on
                ∙ (if-on (sig == sigstop) _ _ s e ∙ set_trace_state-next suspended_state s)),
          inr (ap (λ n. n * 256 + 0x7f) same, on, refl),
        )
    | inr n ↦ let m : (sig == sigcont) ≡ false = ground arith in (s, rw (on, n, m), inl refl)
  ]
]

-- Whatever the kernel reports but an exit with status 0, the parent stays in its loop, and either
-- nothing changes, or a SIGSTOP is reported, there is a fetcher, and the suspended state is set.
pub handle_status-Report :
    (env : Env) (fuel : ℕ) (s : Machine) (w : ℕ)
    → Report w
    → w ≢ 0
    → Passed s w (handle_status env fuel w s)
unfolding handle_status
handle_status-Report env fuel s w (exited code c e) h =
    (s, rw e (passed_exit env fuel s code (ground arith)), inl refl)
handle_status-Report env fuel s w (signaled sig core g g' k e) h =
    (s, rw e (passed_signal env fuel s sig core g g' k), inl refl)
handle_status-Report env fuel s w (stopped sig lo hi e) h =
    let a : wifexited w ≡ false = ground arith in
    let b : wifcontinued w ≡ false = ground arith in
    let c : wifstopped w ≡ true = ground arith in
    let d : wstopsig w ≡ sig = ground arith in rw (a, b, c, d, e) (stop_passes env s sig lo hi)
handle_status-Report env fuel s w (continued e) h = (s, rw e refl, inl refl)

looped :
    (w : ℕ) (f : Flow Bool) {s : Machine} {more : Proc ℕ}
    → Passed s w f
    → ((t : Machine) → (u : Machine) × (more t ≡ fault u))
    → (u : Machine) × (bind f (λ leave. if leave then pure w else more) ≡ fault u)
looped w f (t, e, p) ih = rw e (ih t)

-- Once waitpid fails, as it does when the child is gone, after any report but an exit with status 0,
-- no number of rounds takes the parent out of its loop.
pub wait_loop-spins :
    (env : Env) (fuel rounds : ℕ) (pid : ℤ) (w : ℕ) (s : Machine)
    → Report w
    → w ≢ 0
    → ((l : List Call) → is_neg (env.ret l (waitpid pid)) ≡ true)
    → (u : Machine) × (wait_loop env fuel rounds pid w s ≡ fault u)
unfolding wait_loop
wait_loop-spins env fuel zero pid w s r h fails = (s, refl)
wait_loop-spins env fuel (suc rounds) pid w s r h fails = rw (fails s.log) (
    looped w _ (handle_status-Report env fuel asked w r h)
      (λ t. wait_loop-spins env fuel rounds pid w t r h fails))
  where
    asked : Machine
    asked = record s { log = waitpid pid ∷ s.log }
