-- ===== src/Tracer/Main.antt =====
-- src/cs-trace.c: `child` and `main`.
pub mod Gate
pub mod Child
use ultrasight.Common.{
  ℕ, zero, suc, ◌-◌, ℤ, pos, minus_one, is_neg, is_nonzero, Bool, true, false, ◌&&◌, ◌||◌, not,
  Option, List, [], ◌∷◌, codes, length, get_or, drop, ltb, leb, ◌==◌, if◌then◌else◌, u64,
}
use ultrasight.Machine.{
  fork, wait_any, ptrace_traceme, access, execvpe, Env, Proc, Fn, ◌>>=◌, ◌>>◌, pure, return,
  return_if, when, fn, modify, ask, emit,
}
use ultrasight.Utils.Maps.Parse.{Fields}
use ultrasight.Tracer.Options.{handle_options}
use ultrasight.Tracer.Parent.{parent}

-- strcmp(s, t) == 0
abbrev pub equal_text : List ℕ → List ℕ → Bool
equal_text [] [] = true
equal_text (c ∷ cs) (d ∷ ds) = c == d && equal_text cs ds
equal_text _ _ = false

-- F_OK and X_OK
abbrev pub f_ok : ℕ
f_ok = 0

abbrev pub x_ok : ℕ
x_ok = 1

-- The process after the fork; `exit` is a return. It comes back only where execvpe failed.
unfoldable pub child : Env → List (List ℕ) → Proc (Unit {0})
child env argv = do
  let path = get_or argv 0 []
  ret ← ask env ptrace_traceme
  return_if (is_neg ret) (pos 1)
  found ← ask env (access path f_ok)
  return_if (is_nonzero found) (pos 1)
  executable ← ask env (access path x_ok)
  return_if (is_nonzero executable) (pos 1)
  emit (execvpe path argv)

-- What getopt_long makes of the command line: the options with their arguments, in order, the final
-- `optind`, and `argv` in its final order.
pub record Scan : Type 0 where
  pub options : List (ℕ × Option (List ℕ))
  pub optind : ℕ
  pub argv : List (List ℕ)

-- argc <= optind || strcmp(argv[optind - 1], "--")
abbrev pub no_program : Scan → Bool
no_program scan =
    leb (length scan.argv) scan.optind
    || not (equal_text (get_or scan.argv (scan.optind - 1) []) (codes "--"))

-- The switch on the result of fork.
unfoldable pub run_processes :
    Env → (fuel rounds : ℕ) → Fields → ℕ → List (List ℕ) → ℤ → Proc (Unit {0})
unfolding child
run_processes env fuel rounds fields wstatus argv pid =
    if not (is_nonzero pid)
    then child env argv
    else if u64 pid == u64 minus_one
    then return (pos 1)
    else (parent env fuel rounds fields wstatus pid >> emit wait_any)

-- `main`; the result is the status that it exits with. `argv` is what the program was started with,
-- and `getopt_long` scans it. `fields` and `wstatus` are for `parent`.
unfoldable pub main :
    Env → (getopt_long : List (List ℕ) → Scan) → (fuel rounds : ℕ) → Fields → ℕ → List (List ℕ) → Fn
unfolding handle_options run_processes
main env getopt_long fuel rounds fields wstatus argv = fn do
  modify λ s. record s { registration_verbose = pos 0 }
  return_if (ltb (length argv) 3) (pos 0)
  let scan = getopt_long argv
  handle_options scan.options
  return_if (no_program scan) (pos 1)
  pid ← ask env fork
  run_processes env fuel rounds fields wstatus (drop scan.optind scan.argv) pid
  return (pos 0)
