-- ===== src/Buffer/Trace/Fetch.antt =====
-- What `fetch_trace` makes of the trace buffer.
pub mod Record
use ultrasight.Common.{
  ℕ, suc, ◌+◌, ◌%◌, ◌^◌, ◌≤◌, ◌<◌, ◌≡◌, refl, ap, ◌∙◌, ℤ, pos, negsuc, minus_one, List, ◌∷◌, ◌++◌,
  length, replicate, arith,
}
use ultrasight.Machine.{
  Env, Machine, Flow, next, done, fault, bind, returned, Device, Buffer, Call, mutex_unlock,
  trace_mutex, get_trace_data, empty_trace_buffer,
}
use ultrasight.Buffer.Memory.{used, remain, sub64, add64, poke, peek, contents, IsValid}
use ultrasight.Buffer.Memory.Peek.{peek-poke, poke_behind}
use ultrasight.Buffer.Memory.Align.{aligned, padding, contents-aligned}
use ultrasight.Buffer.Trace.Grow.{Same, scaled, scaled_mono}

-- The buffer after `n` bytes `xs` were read to its write pointer.
abbrev pub filled : Buffer → List ℕ → Buffer
filled b xs = record b { ptr = add64 b.ptr (length xs % 2 ^ 64); bytes = poke b.bytes (used b) xs }

pub used-filled :
    (b : Buffer) (xs : List ℕ)
    → IsValid b
    → length xs ≤ remain b
    → used (filled b xs) ≡ used b + length xs
used-filled b xs v h = omega arith

pub filled-IsValid :
    (b : Buffer) (xs : List ℕ) → IsValid b → length xs ≤ remain b → IsValid (filled b xs)
filled-IsValid b xs v h = record {
  base_aligned = v.base_aligned;
  size_aligned = v.size_aligned;
  size_pos = v.size_pos;
  in_space = v.in_space;
  above = omega arith;
  below = omega arith;
  blank = λ i le.
      let behind : used b + length xs ≤ i = omega (arith, used-filled b xs v h) in
      poke_behind b.bytes (used b) i xs behind ∙ v.blank i (omega arith);
}

pub contents-filled :
    (b : Buffer) (xs : List ℕ)
    → IsValid b
    → length xs ≤ remain b
    → contents (filled b xs) ≡ contents b ++ xs
contents-filled b xs v h =
    ap (peek (poke b.bytes (used b) xs) 0) (used-filled b xs v h) ∙ peek-poke b.bytes (used b) xs

-- The contents once the write pointer is aligned.
abbrev pub padded : Buffer → List ℕ
padded b = contents b ++ replicate (padding b) 0

-- How a fetch from the device `d` into the buffer `b` ends in the state `t`, with result `r`, if `len`
-- bytes were unread: memory ran out; the trace was appended; or the read failed with -(k + 1), and
-- the write pointer went back by as much.
pub data Outcome (env : Env) (d : Device) (b : Buffer) (len : ℕ) (t : Machine) (r : ℤ)
    : Type 0 where
  no_room :
      r ≡ minus_one
      → IsValid t.trace_buf
      → contents t.trace_buf ≡ padded b
      → Outcome env d b len t r
  fetched :
      (l : List Call) (addr size : ℕ)
      → r ≡ pos 0
      → t.log ≡ mutex_unlock trace_mutex ∷ empty_trace_buffer d ∷ get_trace_data d addr size ∷ l
      → len ≤ size
      → addr + size ≡ t.trace_buf.base + t.trace_buf.size
      → IsValid t.trace_buf
      → env.ret l (get_trace_data d addr size)
        ≡ pos (length (env.out l (get_trace_data d addr size)))
      → contents t.trace_buf ≡ padded b ++ env.out l (get_trace_data d addr size)
      → Outcome env d b len t r
  failed :
      (l : List Call) (addr size k : ℕ)
      → r ≡ pos 0
      → t.log ≡ mutex_unlock trace_mutex ∷ empty_trace_buffer d ∷ get_trace_data d addr size ∷ l
      → env.ret l (get_trace_data d addr size) ≡ negsuc k
      → used t.trace_buf ≡ sub64 (used b + padding b) (suc k)
      → Outcome env d b len t r

abbrev pub Fetched : Env → Device → Buffer → ℕ → Flow ℤ → Type 0
Fetched env d b len (next r t) = Outcome env d b len t r
Fetched env d b len (done r t) = ⊥
Fetched env d b len (fault t) = ⊥

-- The end of `fetch_trace`, from the state after the growth loop.
abbrev unlocked : Flow (Unit {0}) → Flow ℤ
unlocked r = bind (returned r) (λ v u. next v (record u { log = mutex_unlock trace_mutex ∷ u.log }))

pub contents-Same : (b c : Buffer) → IsValid b → Same (aligned b) c → contents c ≡ padded b
contents-Same b c v same =
    ap (peek c.bytes 0) same.used_same
    ∙ ap (λ m. peek m 0 (used (aligned b))) same.bytes_same
    ∙ contents-aligned b v

enough_fuel : (n size : ℕ) → n < 2 ^ 62 → 0 < size → n ≤ scaled 63 size
enough_fuel n size h p =
    let one : scaled 63 1 ≡ 2 ^ 63 = refl in omega (arith, one, scaled_mono 63 {m = 1} {n = size} p)
