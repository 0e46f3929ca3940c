-- ===== src/Config/Trace/Phases.antt =====
-- The order in which the components are switched.
use ultrasight.Common.{◌≡◌, ℕ, ◌≤◌, none, some, arith}
use native.Mathlib.Nat.{le_refl}
use ultrasight.Machine.{
  for_range, Env, Board, Machine, device_write, source_disable, sink_disable, source_enable,
  sink_enable, Proc, ◌>>◌, sink_etr_setup, sink_etf_setup, tmc_hw_fifo_enable, error_count, after,
}
use ultrasight.Machine.Order.Level.{level}
use ultrasight.Machine.Order.{Phases, stage, Climbs, Climbs-from, Climbs->>, for_range-Climbs}
use ultrasight.Config.Sinks.{
  cs_etb_flush_and_wait_stop, enable_tpiu, disable_tpiu_sink, enable_etf, disable_etf, check_errors,
}
use ultrasight.Config.Etm.{show_etm_config}
use ultrasight.Config.Trace.{
  disable_trace, enable_trace, disable_source, enable_source, enable_stm, enable_etr, show_source,
}

-- Switching off: the flush, then the sources, then the sinks.
abbrev pub off_phase : Phases
off_phase (device_write d reg value) = some 0
off_phase (source_disable d) = some 1
off_phase (sink_disable d) = some 2
off_phase _ = none

-- Switching on: the sinks, then the sources.
abbrev pub on_phase : Phases
on_phase (sink_etr_setup d addr size axictl) = some 0
on_phase (sink_enable d) = some 0
on_phase (sink_etf_setup d mode) = some 0
on_phase (tmc_hw_fifo_enable d bufwm) = some 0
on_phase (source_enable d) = some 1
on_phase _ = none

le_0_1 : 0 ≤ 1
le_0_1 = omega arith

le_0_2 : 0 ≤ 2
le_0_2 = omega arith

le_1_2 : 1 ≤ 2
le_1_2 = omega arith

rise_0_1 :
    {phase : Phases} {hi : ℕ} {A B : Type 0} {m : Proc A} {k : Proc B}
    → Climbs phase 0 1 m
    → Climbs phase 1 hi k
    → 1 ≤ hi
    → Climbs phase 0 hi (m >> k)
rise_0_1 h j le = Climbs->> 1 h j le

rise_1_2 :
    {phase : Phases} {A B : Type 0} {m : Proc A} {k : Proc B}
    → Climbs phase 1 2 m
    → Climbs phase 2 2 k
    → Climbs phase 1 2 (m >> k)
rise_1_2 h j = Climbs->> 2 h j (le_refl _)

ruleset climbing = (level, rise_0_1, rise_1_2, le_0_1, le_0_2, le_1_2)

flush-Climbs : (env : Env) → Climbs off_phase 0 0 (cs_etb_flush_and_wait_stop env)
unfolding cs_etb_flush_and_wait_stop
flush-Climbs env = search climbing depth 12

disable_source-Climbs : (i : ℕ) → Climbs off_phase 1 1 (disable_source i)
unfolding disable_source
disable_source-Climbs i = search climbing depth 12

disable_etf-Climbs : (i : ℕ) → Climbs off_phase 2 2 (disable_etf i)
unfolding disable_etf
disable_etf-Climbs i = search climbing depth 12

disable_tpiu-Climbs : (env : Env) → Climbs off_phase 2 2 (disable_tpiu_sink env)
unfolding disable_tpiu_sink
disable_tpiu-Climbs env = search climbing depth 12

check_errors-Climbs :
    (phase : Phases) (env : Env) (k : ℕ)
    → phase error_count ≡ none
    → Climbs phase k k (check_errors env)
unfolding check_errors
check_errors-Climbs phase env k h = search climbing depth 12

show_source-Climbs : (env : Env) (i : ℕ) → Climbs off_phase 2 2 (show_source env i)
unfolding show_source show_etm_config
show_source-Climbs env i = search climbing depth 16

disable_sources-Climbs : (n : ℕ) → Climbs off_phase 0 1 (for_range n 0 disable_source)
disable_sources-Climbs n = Climbs-from le_0_1 (for_range-Climbs n 0 disable_source-Climbs)

disable_etfs-Climbs : (n : ℕ) → Climbs off_phase 1 2 (for_range n 0 disable_etf)
disable_etfs-Climbs n = Climbs-from le_1_2 (for_range-Climbs n 0 disable_etf-Climbs)

disable_board-Climbs :
    (env : Env) (board : Board) → Climbs off_phase 0 2 (disable_trace env (some board))
unfolding disable_trace
disable_board-Climbs env board =
    search
      (
        climbing, flush-Climbs, disable_sources-Climbs, disable_etfs-Climbs, disable_tpiu-Climbs,
        show_source-Climbs, check_errors-Climbs,
      )
      depth 30

enable_etf-Climbs : (env : Env) (i : ℕ) → Climbs on_phase 0 0 (enable_etf env i)
unfolding enable_etf
enable_etf-Climbs env i = search climbing depth 12

enable_tpiu-Climbs : (env : Env) → Climbs on_phase 0 0 (enable_tpiu env)
unfolding enable_tpiu
enable_tpiu-Climbs env = search climbing depth 12

enable_etr-Climbs : (env : Env) (board : Board) → Climbs on_phase 0 0 (enable_etr env board)
unfolding enable_etr
enable_etr-Climbs env board = search climbing depth 12

enable_source-Climbs : (i : ℕ) → Climbs on_phase 1 1 (enable_source i)
unfolding enable_source
enable_source-Climbs i = search climbing depth 12

enable_stm-Climbs : (env : Env) → Climbs on_phase 1 1 (enable_stm env)
unfolding enable_stm
enable_stm-Climbs env = search climbing depth 12

enable_sources-Climbs : (n : ℕ) → Climbs on_phase 0 1 (for_range n 0 enable_source)
enable_sources-Climbs n = Climbs-from le_0_1 (for_range-Climbs n 0 enable_source-Climbs)

enable_board-Climbs :
    (env : Env) (board : Board) → Climbs on_phase 0 1 (enable_trace env (some board))
unfolding enable_trace
enable_board-Climbs env board =
    search
      (
        climbing, enable_etr-Climbs, enable_tpiu-Climbs, enable_etf-Climbs, enable_sources-Climbs,
        enable_stm-Climbs, check_errors-Climbs,
      )
      depth 30

-- Whatever is answered, `disable_trace` writes the flush before it disables a source, and disables
-- every source before it disables a sink: if the log's calls that switch off come in these phases, and
-- have not left the first, then the log's after it come in these phases.
pub disable_trace-ordered :
    (env : Env) (board : Board) (s : Machine)
    → stage off_phase s.log ≡ some 0
    → (k : ℕ) × (stage off_phase (after (disable_trace env (some board) s)).log ≡ some k) × (k ≤ 2)
disable_trace-ordered env board s h = (disable_board-Climbs env board).climbs s (0, h, omega arith)

-- Whatever is answered, `enable_trace` sets up and enables every sink before it enables a source: if
-- the log's calls that switch on come in these phases, and have not left the first, then the log's
-- after it come in these phases.
pub enable_trace-ordered :
    (env : Env) (board : Board) (s : Machine)
    → stage on_phase s.log ≡ some 0
    → (k : ℕ) × (stage on_phase (after (enable_trace env (some board) s)).log ≡ some k) × (k ≤ 1)
enable_trace-ordered env board s h = (enable_board-Climbs env board).climbs s (0, h, omega arith)
