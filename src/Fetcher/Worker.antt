-- ===== src/Fetcher/Worker.antt =====
-- src/common.c: what `fetcher_worker` and `trace_sink_polling` compute and call between two waits.
use ultrasight.Common.{ℕ, ◌*◌, ◌%◌, ◌^◌, u64, Bool, true, not, ltb, get_or, ◌==◌, if◌then◌else◌}
use ultrasight.Machine.{
  Device, Env, Proc, ◌>>=◌, ◌>>◌, pure, when, get, modify, ask, emit, get_buffer_size_bytes,
  mutex_lock, mutex_unlock, cond_broadcast, trace_fetcher_mutex, trace_fetcher_cond,
}
use ultrasight.Buffer.Memory.{sub64}

-- Twice the size of the first sink, if that is the smaller; else the size of the ETR's memory.
unfoldable pub threshold_of : (etf_ram_size etr_ram_size : ℕ) → ℕ
threshold_of etf_ram_size etr_ram_size =
    if ltb etf_ram_size etr_ram_size then etf_ram_size * 2 % 2 ^ 64 else etr_ram_size

-- The start of `fetcher_worker`: the threshold. Without a memory of its own, the ETR's is the buffer.
unfoldable pub fetch_threshold : Env → Proc ℕ
unfolding threshold_of
fetch_threshold env = do
  s ← get
  when (s.etr_ram_size == 0) do
    size ← ask env (get_buffer_size_bytes s.devices.etb)
    modify λ t. record t { etr_ram_size = u64 size }
  t ← get
  let sink : Device = get_or t.devices.trace_sinks 0 0
  let known = do
    size ← ask env (get_buffer_size_bytes sink)
    pure (threshold_of (u64 size) t.etr_ram_size)
  if not (sink == 0) then known else pure t.etr_ram_size

-- curr_offset > fetch_threshold
unfoldable pub is_over : (threshold init_pos rwp : ℕ) → Bool
is_over threshold init_pos rwp = ltb threshold (sub64 rwp init_pos)

-- From the label `exit` on.
unfoldable pub leave : Proc (Unit {0})
leave = do
  emit (mutex_lock trace_fetcher_mutex)
  modify λ s. record s { fetcher_ready = true }
  emit (cond_broadcast trace_fetcher_cond)
  emit (mutex_unlock trace_fetcher_mutex)
