-- ===== src/Tracer/Main/Gate.antt =====
-- When `main` starts a process, and what each of the two processes does.
use ultrasight.Common.{
  ℕ, ◌≡◌, refl, ap, ◌∙◌, inl, inr, true, false, Bool-cases, ℤ, pos, Option, none, some, List, ◌∷◌,
  drop, length, ltb, if◌then◌else◌,
}
use ultrasight.Machine.{Env, Machine, Flow, next, done, ◌>>◌, fn, return, fork, value, after}
use ultrasight.Utils.Maps.Parse.{Fields}
use ultrasight.Tracer.Options.{handle_options}
use ultrasight.Tracer.Options.Last.{AllArmed, configured, before_help, is_help, handle_options-Last}
use ultrasight.Tracer.Main.{Scan, main, run_processes, no_program}

-- The status with which `main` refuses a command line.
abbrev pub refusal : List (List ℕ) → Scan → Option ℤ
refusal argv scan =
    if ltb (length argv) 3
    then some (pos 0)
    else if is_help scan.options
    then some (pos 0)
    else if no_program scan
    then some (pos 1)
    else none

module _ (env : Env) (getopt_long : List (List ℕ) → Scan) (fuel rounds : ℕ) (fields : Fields)
    (wstatus : ℕ) (argv : List (List ℕ)) (s : Machine) where
  abbrev options_read : Machine
  options_read =
      configured (before_help (getopt_long argv).options)
        (record s { registration_verbose = pos 0 })

  abbrev forked : Machine
  forked = record options_read { log = fork ∷ options_read.log }

  -- A refusal exits without a call; else the processes run from the state that the options give.
  abbrev pub Gated : Option ℤ → Type 0
  Gated (some status) =
      (value (main env getopt_long fuel rounds fields wstatus argv s) ≡ some status)
      × ((after (main env getopt_long fuel rounds fields wstatus argv s)).log ≡ s.log)
  Gated none =
      let scan = getopt_long argv in
      main env getopt_long fuel rounds fields wstatus argv s
      ≡ fn
          (run_processes env fuel rounds fields wstatus (drop scan.optind scan.argv)
              (env.ret options_read.log fork)
            >> return (pos 0))
          forked

  abbrev result : Flow ℤ
  result = main env getopt_long fuel rounds fields wstatus argv s

  main_few :
      ltb (length argv) 3 ≡ true → result ≡ next (pos 0) (record s { registration_verbose = pos 0 })
  unfolding main
  main_few few = rw few refl

  module _ (enough : ltb (length argv) 3 ≡ false)
      (armed : AllArmed (getopt_long argv).options) where
    abbrev read :
        handle_options (getopt_long argv).options (record s { registration_verbose = pos 0 }) ≡ (
          if is_help (getopt_long argv).options
          then done (pos 0) options_read
          else next tt options_read)
    read =
        handle_options-Last (getopt_long argv).options (record s { registration_verbose = pos 0 })
          armed

    main_help : is_help (getopt_long argv).options ≡ true → result ≡ next (pos 0) options_read
    unfolding main
    main_help help = rw (enough, read, help) refl

    module _ (no_help : is_help (getopt_long argv).options ≡ false) where
      main_no_program : no_program (getopt_long argv) ≡ true → result ≡ next (pos 1) options_read
      unfolding main
      main_no_program missing = rw (enough, read, no_help, missing) refl

      main_launch : no_program (getopt_long argv) ≡ false → Gated none
      unfolding main
      main_launch present = rw (enough, read, no_help, present) refl

  abbrev refused :
      {status : ℤ} {t : Machine} → t.log ≡ s.log → result ≡ next status t → Gated (some status)
  refused log e = (ap value e, ap (λ f. (after f).log) e ∙ log)

  pub main-Gated : AllArmed (getopt_long argv).options → Gated (refusal argv (getopt_long argv))
  main-Gated h = elim (Bool-cases (ltb (length argv) 3)) [
    | inl few ↦ rw few (refused refl (main_few few))
    | inr enough ↦ elim (Bool-cases (is_help (getopt_long argv).options)) [
      | inl help ↦ rw (enough, help) (refused refl (main_help enough h help))
      | inr more ↦ elim (Bool-cases (no_program (getopt_long argv))) [
        | inl missing ↦
            rw (enough, more, missing) (refused refl (main_no_program enough h more missing))
        | inr present ↦ rw (enough, more, present) (main_launch enough h more present)
      ]
    ]
  ]
