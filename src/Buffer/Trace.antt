-- ===== src/Buffer/Trace.antt =====
-- src/common.c: `alloc_trace_buf`, `fetch_trace`, `export_trace` and `free_trace_buf`.
pub mod Grow
pub mod Fetch
pub mod Runs
pub mod Alloc
use ultrasight.Common.{
  ℕ, zero, suc, ◌+◌, ◌-◌, ◌*◌, ◌%◌, ◌^◌, ℤ, pos, minus_one, u64, Bool, not, List, [], ◌∷◌, ◌++◌,
  ◌==◌, ltb,
}
use ultrasight.Machine.{
  Buffer, Device, mutex_lock, mutex_unlock, trace_mutex, get_buffer_unread_bytes, get_trace_data,
  empty_trace_buffer, mmap, mremap, munmap, getcwd, fopen, fwrite, fclose, Env, Machine, Flow, Proc,
  Fn, fault, ◌>>=◌, ◌>>◌, pure, return, return_if, when, fn, get, modify, ask, ask_out, emit,
}
use ultrasight.Buffer.Memory.{add64, align_up8, map_failed, used, remain, poke, contents}

-- DEFAULT_TRACE_SIZE
abbrev pub default_trace_size : ℕ
default_trace_size = 0x80000

-- The rounds that the growth loop is given; `Grow` shows that they suffice.
abbrev pub growth_fuel : ℕ
growth_fuel = 64

-- Anonymous memory reads as zero.
unfoldable pub alloc_trace_buf : Env → Fn
alloc_trace_buf env = fn do
  p ← ask env (mmap default_trace_size)
  modify λ s. record s { trace_buf = record (s.trace_buf) { base = u64 p } }
  return_if (u64 p == map_failed) minus_one
  modify λ s. record s {
    trace_buf = record { base = u64 p; size = default_trace_size; ptr = u64 p; bytes = λ _. 0 };
  }
  return (pos 0)

-- One round of the loop: the mapping doubles and may move, and the write pointer moves with it.
unfoldable pub double_trace_buf : Env → Proc (Unit {0})
double_trace_buf env = do
  s ← get
  let b = s.trace_buf
  let new_size = b.size * 2 % 2 ^ 64
  p ← ask env (mremap b.base b.size new_size)
  return_if (u64 p == map_failed) minus_one
  modify λ t. record t {
    trace_buf = record b { base = u64 p; size = new_size; ptr = add64 (u64 p) (used b) };
  }

-- while ((size_t)len > buf_remain); without fuel left the model faults.
unfoldable pub grow_trace_buf : Env → (fuel len : ℕ) → Proc (Unit {0})
grow_trace_buf env zero len s = fault s
grow_trace_buf env (suc fuel) len s =
    let more = (double_trace_buf env >> grow_trace_buf env fuel len) in
    when (ltb (remain s.trace_buf) len) more s

-- What stands between the test of the room and the exit: the data is read to the write pointer.
unfoldable pub read_trace : Env → Proc (Unit {0})
read_trace env = do
  s ← get
  let b = s.trace_buf
  (n, content) ← ask_out env (get_trace_data s.devices.etb b.ptr (remain b))
  emit (empty_trace_buffer s.devices.etb)
  modify λ t. record t {
    trace_buf = record b { ptr = add64 b.ptr (u64 n); bytes = poke b.bytes (used b) content };
  }
  return (pos 0)

unfoldable pub fetch_trace : Env → Fn
unfolding grow_trace_buf double_trace_buf read_trace
fetch_trace env = do
  emit (mutex_lock trace_mutex)
  s ← get
  len ← ask env (get_buffer_unread_bytes s.devices.etb)
  modify λ t. record t { trace_buf = record (t.trace_buf) { ptr = align_up8 t.trace_buf.ptr } }
  ret ← fn (grow_trace_buf env growth_fuel (u64 len) >> read_trace env)
  emit (mutex_unlock trace_mutex)
  pure ret

-- "%s/%s"
unfoldable pub export_path : List ℕ → List ℕ → List ℕ
export_path cwd name = cwd ++ 0x2f ∷ name

unfoldable pub export_trace : Env → List ℕ → Fn
unfolding export_path
export_trace env trace_name = fn do
  (cwd, dir) ← ask_out env getcwd
  return_if (u64 cwd == 0) minus_one
  fp ← ask env (fopen (export_path dir trace_name))
  return_if (u64 fp == 0) minus_one
  s ← get
  emit (fwrite fp (contents s.trace_buf))
  emit (fclose fp)
  return (pos 0)

-- The address and the size stay behind; only the pointer is reset.
unfoldable pub free_trace_buf : Proc (Unit {0})
free_trace_buf = do
  s ← get
  when (not (s.devices.etb == 0)) (emit (empty_trace_buffer s.devices.etb))
  when (not (s.trace_buf.base == 0)) do
    emit (munmap s.trace_buf.base s.trace_buf.size)
    modify λ t. record t { trace_buf = record (t.trace_buf) { ptr = 0 } }
