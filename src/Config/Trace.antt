-- ===== src/Config/Trace.antt =====
-- src/config.c: `configure_trace`, `enable_trace` and `disable_trace`.
pub mod Judge
pub mod Phases
pub mod Ids
use ultrasight.Common.{
  ℕ, ◌+◌, bit_or, ℤ, pos, minus_one, u32, u64, is_neg, is_nonzero, is_positive, Bool, leb, ltb, not,
  List, Option, none, some, get_or, set, ◌==◌, if◌then◌else◌,
}
use ultrasight.Machine.{
  Device, MapInfo, Board, disable_tpiu, sink_disable, sink_enable, sink_etr_setup, cpu_get_device,
  set_trace_source_id, source_enable, source_disable, swstim_enable_all_ports,
  swstim_set_sync_repeat, etm_get_version, device_read, device_write, checkpoint, cti_diag, Env,
  Machine, Proc, Fn, ◌>>=◌, ◌>>◌, return, return_if, when, fn, get, modify, ask, emit, for_range,
}
use ultrasight.Config.Etm.{init_etm, configure_etmv4_addr_range_cid, show_etm_config}
use ultrasight.Config.Sinks.{
  cs_etb_flush_and_wait_stop, enable_tpiu, disable_tpiu_sink, enable_etf, disable_etf, check_errors,
}

-- The trace source id of a CPU's ETM, and that of the STM.
abbrev pub etm_source_id : ℕ → ℕ
etm_source_id cpu = 0x10 + cpu

abbrev pub stm_source_id : ℕ
stm_source_id = 0x20

-- One round of the loop that finds and initialises the sources.
unfoldable pub attach_source : Env → ℕ → Proc (Unit {0})
attach_source env i = do
  d ← ask env (cpu_get_device i env.headers.devclass_source)
  modify λ s. record s { devices = record (s.devices) { ptm = set s.devices.ptm i (u64 d) } }
  s ← get
  let source = get_or s.devices.ptm i 0
  return_if (source == env.headers.errdesc) minus_one
  id ← ask env (set_trace_source_id source (etm_source_id i))
  return_if (is_neg id) minus_one
  rc ← init_etm env source
  return_if (is_neg rc) minus_one

-- One round of the loop that configures the sources; an ETM before version 4 is passed over.
unfoldable pub configure_source : Env → Option MapInfo → ℕ → ℕ → Proc (Unit {0})
configure_source env range cid i = do
  s ← get
  let source = get_or s.devices.ptm i 0
  version ← ask env (etm_get_version source)
  when (leb env.headers.etmversion_etmv4 (env.version_major version))
      do r ← configure_etmv4_addr_range_cid env source range cid; return_if (is_nonzero r) r

-- `configure_trace`; `none` is the NULL board.
unfoldable pub configure_trace : Env → Option Board → Option MapInfo → ℕ → Fn
configure_trace env none range cid = fn (return minus_one)
configure_trace env (some board) range cid = fn do
  emit disable_tpiu
  s ← get
  emit (sink_disable s.devices.etb)
  for_range board.n_cpu 0 (attach_source env)
  id ← ask env (set_trace_source_id s.devices.itm stm_source_id)
  return_if (is_neg id) minus_one
  emit checkpoint
  for_range board.n_cpu 0 (configure_source env range cid)
  let h = env.headers
  ffcr_val ← ask env (device_read s.devices.etb h.etb_flfmt_ctrl)
  emit (device_write s.devices.etb h.etb_flfmt_ctrl (bit_or (u32 ffcr_val) h.etb_flfmt_ctrl_stopfl))
  check_errors env

unfoldable pub enable_source : ℕ → Proc (Unit {0})
enable_source i = do s ← get; emit (source_enable (get_or s.devices.ptm i 0))

unfoldable pub disable_source : ℕ → Proc (Unit {0})
disable_source i = do s ← get; emit (source_disable (get_or s.devices.ptm i 0))

-- The STM: all ports on, synchronised every 32 packets.
unfoldable pub enable_stm : Env → Proc (Unit {0})
enable_stm env = do
  s ← get
  ports ← ask env (swstim_enable_all_ports s.devices.itm)
  return_if (is_neg ports) minus_one
  sync ← ask env (swstim_set_sync_repeat s.devices.itm 32)
  return_if (is_neg sync) minus_one
  emit (source_enable s.devices.itm)

-- The ETR, set up over the u-dma-buf region and enabled.
unfoldable pub enable_etr : Env → Board → Proc (Unit {0})
enable_etr env board = do
  s ← get
  setup ← ask env (sink_etr_setup s.devices.etb s.etr_ram_addr s.etr_ram_size board.etr_axictl)
  return_if (is_nonzero setup) minus_one
  rc ← ask env (sink_enable s.devices.etb)
  return_if (is_nonzero rc) minus_one

unfoldable pub enable_trace : Env → Option Board → Fn
enable_trace env none = fn (return minus_one)
enable_trace env (some board) = fn do
  s ← get
  enable_etr env board
  enable_tpiu env
  for_range s.devices.num_trace_sinks 0 (enable_etf env)
  for_range board.n_cpu 0 enable_source
  enable_stm env
  emit checkpoint
  when (is_positive s.registration_verbose) (emit cti_diag)
  check_errors env

unfoldable pub show_source : Env → ℕ → Proc (Unit {0})
show_source env i = do s ← get; show_etm_config env (get_or s.devices.ptm i 0)

-- registration_verbose > 1
abbrev pub very_verbose : ℤ → Bool
very_verbose (pos n) = ltb 1 n
very_verbose _ = Bool.false

unfoldable pub disable_trace : Env → Option Board → Fn
disable_trace env none = fn (return minus_one)
disable_trace env (some board) = fn do
  s ← get
  cs_etb_flush_and_wait_stop env
  for_range board.n_cpu 0 disable_source
  emit (source_disable s.devices.itm)
  for_range s.devices.num_trace_sinks 0 disable_etf
  emit (sink_disable s.devices.etb)
  disable_tpiu_sink env
  when (very_verbose s.registration_verbose) (for_range board.n_cpu 0 (show_source env))
  check_errors env
