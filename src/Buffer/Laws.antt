-- ===== src/Buffer/Laws.antt =====
-- What the code relies on in the calls that give it memory and trace data, as their manuals state it.
use ultrasight.Common.{
  ℕ, ◌+◌, ◌%◌, ◌^◌, ◌<◌, ◌≤◌, ◌≡◌, ◌⊎◌, ℤ, pos, negsuc, minus_one, List, [], length,
}
use ultrasight.Machine.{Call, Device, mremap, get_trace_data, Env}

-- mremap(2): MAP_FAILED, or an aligned address with the new size mapped behind it.
abbrev pub MapResult : ℕ → ℤ → Type 0
MapResult size r = (r ≡ minus_one) ⊎ ((p : ℕ) × (r ≡ pos p) × (p % 8 ≡ 0) × (p + size < 2 ^ 64))

-- CSAL's `cs_get_trace_data`: an error, or the number of the bytes that it wrote, at most `size`.
abbrev pub DataResult : ℕ → ℤ → List ℕ → Type 0
DataResult size r content =
    ((k : ℕ) × (r ≡ negsuc k) × (k < 2 ^ 31) × (content ≡ []))
    ⊎ ((r ≡ pos (length content)) × (length content ≤ size))

pub record MemoryLaws (env : Env) : Type 0 where
  pub mremap_lem :
      (l : List Call) (addr old_size new_size : ℕ)
      → MapResult new_size (env.ret l (mremap addr old_size new_size))

-- An `int` holds the number of bytes.
pub record DataLaws (env : Env) : Type 0 where
  pub data_lem :
      (l : List Call) (d : Device) (addr size : ℕ)
      → DataResult size
          (env.ret l (get_trace_data d addr size))
          (env.out l (get_trace_data d addr size))
