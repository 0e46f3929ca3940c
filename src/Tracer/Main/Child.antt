-- ===== src/Tracer/Main/Child.antt =====
-- How the process after the fork ends.
use ultrasight.Common.{ℕ, Bool, true, false, ℤ, pos, List, [], ◌∷◌}
use ultrasight.Machine.{Env, Machine, Call, Flow, ◌>>◌, fn, return, execvpe}
use ultrasight.Utils.Maps.Parse.{Fields}
use ultrasight.Tracer.Main.{run_processes}

-- Whether the log has a call of execvpe.
abbrev pub executes : List Call → Bool
executes [] = false
executes (execvpe path argv ∷ l) = true
executes (_ ∷ l) = executes l

module _ (env : Env) (fuel rounds : ℕ) (fields : Fields) (wstatus : ℕ) (argv : List (List ℕ))
    (s : Machine) where
  abbrev pub in_child : Flow ℤ
  in_child = fn (run_processes env fuel rounds fields wstatus argv (pos 0) >> return (pos 0)) s
