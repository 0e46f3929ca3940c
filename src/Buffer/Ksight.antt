-- ===== src/Buffer/Ksight.antt =====
-- src/common.c: `alloc_ksight_buf`, `fetch_ksight_events`, `export_ksight` and `free_ksight_buf`.
pub mod Events
pub mod Room
pub mod Round
pub mod Drain
use ultrasight.Common.{
  ℕ, zero, suc, ◌*◌, ◌%◌, ◌^◌, ℤ, pos, minus_one, u64, codes, is_neg, is_nonzero, not, List, ◌==◌,
  ltb,
}
use ultrasight.Machine.{
  mmap, mremap, munmap, getcwd, fopen, fwrite, fclose, open_file, read_file, close_file, get_errno,
  Env, Proc, Fn, fault, ◌>>=◌, ◌>>◌, return, return_if, when, fn, get, modify, ask, ask_out, emit,
}
use ultrasight.Buffer.Memory.{add64, align_up8, map_failed, used, remain, poke, contents}
use ultrasight.Buffer.Trace.{default_trace_size, export_path}

-- sizeof(struct ksight_tag_event): two objects of 32 bytes and a timestamp.
abbrev pub tag_event_size : ℕ
tag_event_size = 72

-- "/dev/ksight"
abbrev pub ksight_device : List ℕ
ksight_device = codes "/dev/ksight"

unfoldable pub alloc_ksight_buf : Env → Fn
alloc_ksight_buf env = fn do
  p ← ask env (mmap default_trace_size)
  modify λ s. record s { ksight_buf = record (s.ksight_buf) { base = u64 p } }
  return_if (u64 p == map_failed) minus_one
  modify λ s. record s {
    ksight_buf = record { base = u64 p; size = default_trace_size; ptr = u64 p; bytes = λ _. 0 };
  }
  return (pos 0)

-- The growth of the buffer: the result is compared with NULL, not with MAP_FAILED.
unfoldable pub double_ksight_buf : Env → Proc (Unit {0})
double_ksight_buf env = do
  s ← get
  let b = s.ksight_buf
  let new_size = b.size * 2 % 2 ^ 64
  p ← ask env (mremap b.base b.size new_size)
  return_if (u64 p == 0) minus_one
  modify λ t. record t {
    ksight_buf = record b { base = u64 p; size = new_size; ptr = add64 (u64 p) (used b) };
  }

-- EAGAIN, which is also EWOULDBLOCK
abbrev pub eagain : ℤ
eagain = pos 11

-- One read: what the device holds is appended; the round returns when there is nothing more, or on an
-- error.
unfoldable pub read_once : Env → ℤ → Proc (Unit {0})
read_once env fd = do
  t ← get
  let b = t.ksight_buf
  (n, content) ← ask_out env (read_file fd (remain b))
  when (is_neg n)
      do errno ← ask env get_errno; return_if (u64 errno == u64 eagain) (pos 0); return minus_one
  return_if (not (is_nonzero n)) (pos 0)
  modify λ u. record u {
    ksight_buf = record b { ptr = add64 b.ptr (u64 n); bytes = poke b.bytes (used b) content };
  }

-- One round: room is made for an event before the read.
unfoldable pub read_events : Env → ℤ → Proc (Unit {0})
unfolding double_ksight_buf read_once
read_events env fd = do
  s ← get
  when (ltb (remain s.ksight_buf) tag_event_size) (double_ksight_buf env)
  read_once env fd

-- while (1); without fuel left the model faults.
unfoldable pub read_all_events : Env → ℕ → ℤ → Proc (Unit {0})
read_all_events env zero fd s = fault s
read_all_events env (suc fuel) fd s =
    let more = read_all_events env fuel fd in (read_events env fd >> more) s

unfoldable pub fetch_ksight_events : Env → ℕ → Fn
unfolding read_all_events read_events
fetch_ksight_events env fuel = fn do
  fd ← ask env (open_file ksight_device)
  return_if (is_neg fd) minus_one
  modify λ s. record s { ksight_buf = record (s.ksight_buf) { ptr = align_up8 s.ksight_buf.ptr } }
  ret ← fn (read_all_events env fuel fd)
  emit (close_file fd)
  return ret

unfoldable pub export_ksight : Env → List ℕ → Fn
unfolding export_path
export_ksight env ksight_name = fn do
  (cwd, dir) ← ask_out env getcwd
  return_if (u64 cwd == 0) minus_one
  fp ← ask env (fopen (export_path dir ksight_name))
  return_if (u64 fp == 0) minus_one
  s ← get
  emit (fwrite fp (contents s.ksight_buf))
  emit (fclose fp)
  return (pos 0)

unfoldable pub free_ksight_buf : Proc (Unit {0})
free_ksight_buf = do
  s ← get
  when (not (s.ksight_buf.base == 0)) do
    emit (munmap s.ksight_buf.base s.ksight_buf.size)
    modify λ t. record t { ksight_buf = record (t.ksight_buf) { ptr = 0 } }
