-- ===== src/Config/Keeps.antt =====
-- src/config.c writes no global but `devices`, and calls nothing of mutexes and files: what depends on neither
-- is kept by its functions.
use ultrasight.Common.{ℕ, false, ◌≡◌, Option, none, some}
use ultrasight.Machine.{Env, Machine, Board, MapInfo, Device, Devices, Call}
use ultrasight.Machine.Keeps.{Ignores, Keeps, keeping}
use ultrasight.Config.Etm.{init_etm, configure_etmv4_addr_range_cid, show_etm_config}
use ultrasight.Config.Sinks.{
  enable_trace_sinks_only, disable_trace_sinks_only, enable_tpiu, disable_tpiu_sink, enable_etf,
  disable_etf, check_errors, cs_etb_flush_and_wait_stop,
}
use ultrasight.Config.Trace.{
  configure_trace, enable_trace, disable_trace, attach_source, configure_source, enable_source,
  disable_source, enable_stm, enable_etr, show_source,
}
use ultrasight.Locks.Calls.{is_tracked}

-- A part of the state that only the calls of mutexes and of files change, and no assignment of src/config.c.
pub record Apart {ℓ} {X : Type ℓ} (φ : Machine → X) : Type ℓ where
  pub silent : (c : Call) → is_tracked c ≡ false → Ignores φ c
  pub devices_lem : (s : Machine) (d : Devices) → φ (record s { devices = d }) ≡ φ s

module _ {ℓ} {X : Type ℓ} {φ : Machine → X} (apart : Apart φ) where
  quiet : (c : Call) → is_tracked c ≡ false → Ignores φ c
  quiet = apart.silent

  same_devices : (s : Machine) (d : Devices) → φ (record s { devices = d }) ≡ φ s
  same_devices = apart.devices_lem

  pub enable_trace_sinks_only-Keeps : (env : Env) → Keeps φ (enable_trace_sinks_only env)
  unfolding enable_trace_sinks_only enable_tpiu enable_etf check_errors
  enable_trace_sinks_only-Keeps env = search (keeping, quiet) depth 30

  pub disable_trace_sinks_only-Keeps : (env : Env) → Keeps φ (disable_trace_sinks_only env)
  unfolding disable_trace_sinks_only cs_etb_flush_and_wait_stop disable_tpiu_sink disable_etf
      check_errors
  disable_trace_sinks_only-Keeps env = search (keeping, quiet) depth 30

  init_etm-Keeps : (env : Env) (d : Device) → Keeps φ (init_etm env d)
  unfolding init_etm
  init_etm-Keeps env d = search (keeping, quiet) depth 40

  configure_etm-Keeps :
      (env : Env) (d : Device) (range : Option MapInfo) (cid : ℕ)
      → Keeps φ (configure_etmv4_addr_range_cid env d range cid)
  unfolding configure_etmv4_addr_range_cid
  configure_etm-Keeps env d range cid = search (keeping, quiet) depth 40

  pub configure_trace-Keeps :
      (env : Env) (board : Option Board) (range : Option MapInfo) (cid : ℕ)
      → Keeps φ (configure_trace env board range cid)
  unfolding configure_trace attach_source configure_source check_errors
  configure_trace-Keeps env none range cid = search keeping
  configure_trace-Keeps env (some board) range cid =
      search (keeping, quiet, same_devices, init_etm-Keeps, configure_etm-Keeps) depth 40

  pub enable_trace-Keeps : (env : Env) (board : Option Board) → Keeps φ (enable_trace env board)
  unfolding enable_trace enable_etr enable_tpiu enable_etf enable_source enable_stm check_errors
  enable_trace-Keeps env none = search keeping
  enable_trace-Keeps env (some board) = search (keeping, quiet) depth 40

  pub disable_trace-Keeps : (env : Env) (board : Option Board) → Keeps φ (disable_trace env board)
  unfolding disable_trace cs_etb_flush_and_wait_stop disable_source disable_etf disable_tpiu_sink
      show_source show_etm_config check_errors
  disable_trace-Keeps env none = search keeping
  disable_trace-Keeps env (some board) = search (keeping, quiet) depth 40
