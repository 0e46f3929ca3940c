-- ===== src/Tests/Launch.antt =====
-- The boards, a command line with two options, and the STM's mapping.
use ultrasight.Common.{◌≡◌, refl, ℕ, ◌+◌, ◌*◌, pos, some, none, List, [], ◌∷◌, codes, arith}
use ultrasight.Machine.{Env, Machine, next, ◌>>=◌, value, after}
use ultrasight.Boards.{KnownBoard}
use ultrasight.Boards.Register.{Registry}
use ultrasight.Boards.Zcu104.{do_registration_zcu104}
use ultrasight.Boards.Wiring.{Wired, StmWired, head}
use ultrasight.Boards.Wired.{known_boards-Wired}
use ultrasight.Boards.Inputs.{Apart, Distinct, inputs, known_boards-Distinct}
use ultrasight.Utils.Maps.Parse.{Fields}
use ultrasight.Tracer.Options.{handle_options}
use ultrasight.Tracer.Options.Last.{Arg, configured, handle_options-Last}
use ultrasight.Tracer.Main.{Scan}
use ultrasight.Tracer.Main.Gate.{main-Gated, Gated}
use ultrasight.Stm.{
  preload_stm_region, unload_stm_region, setup_stm_region, clean_stm_region, stm_map_size,
  no_pointer,
}
use ultrasight.Stm.Audit.{mapped, unload-preload, clean-setup}
use ultrasight.Tests.Sample.{env, machine, devices}

abbrev registry : Registry
registry = record {
  devclass_source = 3;
  device = λ a. a * 2;
  cpu_device = λ cpu class. cpu * 2 + 1;
  replicator = λ n. n * 2 + 1001;
  trigsrc = λ cti port. port;
  trigdst = λ cti port. port;
}

registry-Apart : Apart registry
registry-Apart = record {
  device_apart = λ a b e. omega arith;
  replicator_apart = λ n a e. omega arith;
}

abbrev zcu104 : KnownBoard
zcu104 = record { do_registration = do_registration_zcu104; n_cpu = 4; hardware = codes "ZCU-104" }

abbrev roomy : Machine
roomy = record machine { devices = record devices { trace_sinks = 0 ∷ 0 ∷ [] } }

known_boards-Wired_example :
    (value (do_registration_zcu104 registry roomy) ≡ some (pos 0))
    × Wired registry 4 (after (do_registration_zcu104 registry roomy))
    × StmWired roomy (after (do_registration_zcu104 registry roomy))
known_boards-Wired_example = known_boards-Wired registry roomy zcu104 head (omega arith)

known_boards-Distinct_example :
    Distinct (inputs (after (do_registration_zcu104 registry roomy)).log)
known_boards-Distinct_example = known_boards-Distinct registry roomy zcu104 head registry-Apart refl

-- -c 2 -k -c 3
abbrev options : List (ℕ × Arg)
options = (b'c', some (codes "2")) ∷ (b'k', none) ∷ (b'c', some (codes "3")) ∷ []

handle_options-Last_example : handle_options options machine ≡ next tt (configured options machine)
handle_options-Last_example = handle_options-Last options machine (tt, ((refl, refl), (tt, tt)))

abbrev command_line : List (List ℕ)
command_line = codes "cs-trace" ∷ codes "-k" ∷ codes "--" ∷ codes "/bin/ls" ∷ []

abbrev scan : List (List ℕ) → Scan
scan argv = record { options = options; optind = 3; argv = argv }

abbrev no_fields : Fields
no_fields = record { start = 0; end = 0; offset = 0; x = 0 }

main-Gated_example : Gated env scan 3 3 no_fields 0 command_line machine none
main-Gated_example =
    main-Gated env scan 3 3 no_fields 0 command_line machine (tt, ((refl, refl), (tt, tt)))

abbrev mapping : Env
mapping = record env { ret = λ l c. pos 0x7000 }

unload-preload_example :
    mapped mapping
      (after ((preload_stm_region mapping 1 no_pointer >>= unload_stm_region 1) machine)).log
    ≡ []
unload-preload_example = unload-preload mapping 1 1 machine (λ l size fd offset. refl)

clean-setup_example :
    mapped mapping
      (after ((setup_stm_region mapping >>= λ (ret, fd). clean_stm_region fd 0) machine)).log
    ≡ (0x7000, stm_map_size) ∷ []
clean-setup_example = clean-setup mapping 0 machine refl refl refl
