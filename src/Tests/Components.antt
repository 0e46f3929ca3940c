-- ===== src/Tests/Components.antt =====
-- One CPU traced through an ETF and an ETR.
use ultrasight.Common.{
  suc, ◌≡◌, refl, ◌⊎◌, ℕ, ◌+◌, ◌≤◌, ◌<◌, ℤ, pos, minus_one, is_neg, true, false, some, [], ◌∷◌,
  arith,
}
use ultrasight.Machine.{Machine, MapInfo, suspended_state, running_state, after, value, for_range}
use ultrasight.Machine.Order.{stage}
use ultrasight.Lifecycle.{set_trace_state}
use ultrasight.Lifecycle.Table.{Signals, Unexpected, set_trace_state-Signals}
use ultrasight.Locks.{held_by}
use ultrasight.Locks.Session.{
  Exchanged, set_trace_state-held, disable_cs_trace-held, enable_cs_trace-held,
}
use ultrasight.Config.Etm.{filter_config}
use ultrasight.Config.Etm.Filter.{Filters, filter_config-Filters}
use ultrasight.Config.Sinks.{
  enable_trace_sinks_only, disable_trace_sinks_only, enable_tpiu, disable_tpiu_sink, enable_etf,
  disable_etf, check_errors, cs_etb_flush_and_wait_stop,
}
use ultrasight.Config.Trace.{configure_trace, stm_source_id, enable_trace, disable_trace}
use ultrasight.Config.Trace.Ids.{Falling, given, configure_trace-Falling}
use ultrasight.Config.Trace.Judge.{Verdict, enable_trace-Verdict, enable_trace_sinks_only-Verdict}
use ultrasight.Config.Trace.Phases.{
  off_phase, on_phase, disable_trace-ordered, enable_trace-ordered,
}
use ultrasight.Session.Enable.{
  enable_again, enable_cs_trace, disable_cs_trace, disable_tries, try_disable,
}
use ultrasight.Session.Enable.Retry.{paused, disable_cs_trace-tries}
use ultrasight.Utils.Cpu.{first_outside}
use ultrasight.Utils.Cpu.Least.{Least, first_outside-Least}
use ultrasight.Session.Fini.{fini_trace}
use ultrasight.Session.Fini.Order.{fini_phase, fini_trace-ordered}
use ultrasight.Utils.Maps.Parse.{Fields, scan_line, strip_newline}
use ultrasight.Utils.Maps.Setup.{setup_map_info, no_map}
use ultrasight.Utils.Scan.{scan_lx, find_char}
use ultrasight.Utils.Maps.Bounds.{table_length, setup_map_info-Bounded}
use ultrasight.Tests.Sample.{maps_env, env, broken_env, machine, board, headers, blank_config}

set_trace_state-Signals_example :
    let t = after (set_trace_state suspended_state machine) in
    (t.trace_state ≡ suspended_state)
    × (Signals running_state suspended_state t.trace_event
        ⊎ (Unexpected running_state suspended_state × (t.trace_event ≡ machine.trace_event)))
set_trace_state-Signals_example = set_trace_state-Signals suspended_state machine

enable_trace-Verdict_example : Verdict broken_env (enable_trace broken_env (some board) machine)
enable_trace-Verdict_example = enable_trace-Verdict broken_env board machine refl

enable_trace_sinks_only-Verdict_example : Verdict env (enable_trace_sinks_only env machine)
enable_trace_sinks_only-Verdict_example = enable_trace_sinks_only-Verdict env machine refl

disable_trace-ordered_example :
    (k : ℕ) × (stage off_phase (after (disable_trace env (some board) machine)).log ≡ some k)
    × (k ≤ 2)
disable_trace-ordered_example = disable_trace-ordered env board machine refl

enable_trace-ordered_example :
    (k : ℕ) × (stage on_phase (after (enable_trace env (some board) machine)).log ≡ some k)
    × (k ≤ 1)
enable_trace-ordered_example = enable_trace-ordered env board machine refl

disable_cs_trace-tries_example :
    let t = after (disable_cs_trace broken_env true machine) in
    (r : ℤ) × (value (disable_cs_trace broken_env true machine) ≡ some r)
    × ((is_neg r ≡ true) × (paused t ≡ 0 + 8) ⊎ (is_neg r ≡ false) × (paused t < 0 + 8))
disable_cs_trace-tries_example = disable_cs_trace-tries broken_env true machine refl

set_trace_state-held_example :
    Exchanged machine (after (set_trace_state suspended_state machine))
    × (held_by (after (set_trace_state suspended_state machine)) ≡ some [])
set_trace_state-held_example = set_trace_state-held suspended_state machine refl

disabled : value (disable_cs_trace broken_env false machine) ≡ some minus_one
unfolding disable_cs_trace disable_tries try_disable disable_trace_sinks_only
    cs_etb_flush_and_wait_stop disable_tpiu_sink disable_etf check_errors for_range
disabled = refl

disable_cs_trace-held_example :
    held_by (after (disable_cs_trace broken_env false machine)) ≡ some []
disable_cs_trace-held_example = disable_cs_trace-held broken_env false machine refl disabled

enabled : value (enable_cs_trace broken_env (pos 42) machine) ≡ some minus_one
unfolding enable_cs_trace enable_again enable_trace_sinks_only enable_tpiu enable_etf check_errors
    for_range
enabled = refl

enable_cs_trace-held_example :
    held_by (after (enable_cs_trace broken_env (pos 42) machine)) ≡ some []
enable_cs_trace-held_example = enable_cs_trace-held broken_env (pos 42) machine refl enabled

abbrev text_range : MapInfo
text_range = record { start = 0x400000; end = 0x452000; offset = 0; buf = 0; path = [] }

filter_config-Filters_example :
    Filters headers text_range 42 blank_config
      (filter_config headers (some text_range) 42 blank_config)
filter_config-Filters_example =
    filter_config-Filters headers text_range 42 blank_config (omega arith) (omega arith)
      (omega arith)

first_outside-Least_example : Least 4 0 (0 ∷ 1 ∷ 3 ∷ []) (first_outside 4 0 (0 ∷ 1 ∷ 3 ∷ []))
first_outside-Least_example = first_outside-Least 4 0 (0 ∷ 1 ∷ 3 ∷ [])

fini_trace-ordered_example :
    (k : ℕ) × (stage fini_phase (after (fini_trace env 3 machine)).log ≡ some k) × (k ≤ 4)
fini_trace-ordered_example = fini_trace-ordered env 3 machine refl

abbrev no_fields : Fields
no_fields = record { start = 0; end = 0; offset = 0; x = 0 }

abbrev map_machine : Machine
map_machine = record machine { map_info = no_map ∷ [] }

one_map : value (setup_map_info maps_env 5 no_fields (pos 42) 1 map_machine) ≡ some (pos 1)
unfolding setup_map_info for_range scan_line scan_lx strip_newline find_char
one_map = refl

setup_map_info-Bounded_example :
    (1 ≤ 1)
    × (table_length (after (setup_map_info maps_env 5 no_fields (pos 42) 1 map_machine)) ≡ 1)
setup_map_info-Bounded_example =
    setup_map_info-Bounded maps_env 5 no_fields (pos 42) 1 map_machine 1 refl one_map

configure_trace-Falling_example :
    Falling
      (suc stm_source_id)
      (given (after (configure_trace env (some board) (some text_range) 42 machine)))
configure_trace-Falling_example =
    configure_trace-Falling env board (some text_range) 42 machine (omega arith) refl
