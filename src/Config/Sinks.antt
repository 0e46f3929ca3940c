-- ===== src/Config/Sinks.antt =====
-- src/config.c: `cs_etb_flush_and_wait_stop`, `enable_trace_sinks_only` and
-- `disable_trace_sinks_only`, and the loops over the sinks that the full functions share.
use ultrasight.Common.{ℕ, bit_or, pos, minus_one, u32, is_nonzero, is_positive, not, get_or, ◌==◌}
use ultrasight.Machine.{
  sink_is_enabled, sink_enable, sink_disable, sink_etf_setup, tmc_hw_fifo_enable, device_read,
  device_write, device_wait, checkpoint, error_count, Env, Proc, Fn, ◌>>=◌, ◌>>◌, return, return_if,
  when, fn, get, ask, emit, for_range,
}

-- The wait's result is only printed.
unfoldable pub cs_etb_flush_and_wait_stop : Env → Proc (Unit {0})
cs_etb_flush_and_wait_stop env = do
  s ← get
  let etb = s.devices.etb
  let h = env.headers
  enabled ← ask env (sink_is_enabled etb)
  when (is_nonzero enabled) do
    ffcr_val ← ask env (device_read etb h.etb_flfmt_ctrl)
    emit (device_write etb h.etb_flfmt_ctrl (bit_or (u32 ffcr_val) h.etb_flfmt_ctrl_fonman))
    emit (device_wait etb h.etb_status h.etb_status_ftempty)

-- The TPIU, if the board has one.
unfoldable pub enable_tpiu : Env → Proc (Unit {0})
enable_tpiu env = do
  s ← get
  when (not (s.devices.tpiu == 0))
      do rc ← ask env (sink_enable s.devices.tpiu); return_if (is_nonzero rc) minus_one

unfoldable pub disable_tpiu_sink : Env → Proc (Unit {0})
disable_tpiu_sink env = do
  s ← get
  when (not (s.devices.tpiu == 0))
      do rc ← ask env (sink_disable s.devices.tpiu); return_if (is_nonzero rc) minus_one

-- One round of the loop that sets up the ETFs as hardware FIFOs.
unfoldable pub enable_etf : Env → ℕ → Proc (Unit {0})
enable_etf env i = do
  s ← get
  let sink = get_or s.devices.trace_sinks i 0
  setup ← ask env (sink_etf_setup sink env.headers.tmc_mode_hwfifo)
  return_if (is_nonzero setup) minus_one
  fifo ← ask env (tmc_hw_fifo_enable sink 0)
  return_if (is_nonzero fifo) minus_one

-- One round of the loop that disables the ETFs.
unfoldable pub disable_etf : ℕ → Proc (Unit {0})
disable_etf i = do
  s ← get
  let sink = get_or s.devices.trace_sinks i 0
  when (not (sink == 0)) (emit (sink_disable sink))

-- The check of CSAL's error counter that ends each function.
unfoldable pub check_errors : Env → Proc (Unit {0})
check_errors env = do
  errors ← ask env error_count
  return_if (is_positive errors) minus_one
  return (pos 0)

unfoldable pub enable_trace_sinks_only : Env → Fn
enable_trace_sinks_only env = fn do
  s ← get
  rc ← ask env (sink_enable s.devices.etb)
  return_if (is_nonzero rc) minus_one
  enable_tpiu env
  for_range s.devices.num_trace_sinks 0 (enable_etf env)
  emit checkpoint
  check_errors env

unfoldable pub disable_trace_sinks_only : Env → Fn
disable_trace_sinks_only env = fn do
  cs_etb_flush_and_wait_stop env
  disable_tpiu_sink env
  s ← get
  for_range s.devices.num_trace_sinks 0 disable_etf
  emit (sink_disable s.devices.etb)
  check_errors env
