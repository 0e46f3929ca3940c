-- ===== src/Buffer/Memory.antt =====
-- Addresses, `ALIGN_UP` of include/utils.h, and the bytes of a mapping.
pub mod Peek
pub mod Align
use ultrasight.Common.{
  ℕ, zero, suc, ◌+◌, ◌-◌, ◌*◌, ◌/◌, ◌%◌, ◌^◌, ◌≤◌, ◌<◌, ◌≡◌, refl, ◌&&◌, ℤ, negsuc, List, [], ◌∷◌,
  length, get_or, leb, ltb, if◌then◌else◌, arith,
}
use ultrasight.Machine.{Buffer}

-- `size_t` and `unsigned long` arithmetic.
abbrev pub add64 : ℕ → ℕ → ℕ
add64 a b = (a + b) % 2 ^ 64

abbrev pub sub64 : ℕ → ℕ → ℕ
sub64 a b = (a + 2 ^ 64 - b) % 2 ^ 64

-- ALIGN_UP(val, 8): `& ~7` clears the low three bits.
abbrev pub align_up8 : ℕ → ℕ
align_up8 val = add64 val 7 / 8 * 8

-- MAP_FAILED, `(void *) -1`
abbrev pub map_failed : ℕ
map_failed = 2 ^ 64 - 1

-- The offset of the write pointer, and the room behind it.
abbrev pub used : Buffer → ℕ
used b = sub64 b.ptr b.base

abbrev pub remain : Buffer → ℕ
remain b = sub64 b.size (used b)

-- The memory after a copy of `content` to offset `off`.
unfoldable pub poke : (ℕ → ℕ) → ℕ → List ℕ → ℕ → ℕ
poke mem off content i =
    if leb off i && ltb i (off + length content) then get_or content (i - off) 0 else mem i

-- The `n` bytes from offset `off` on.
unfoldable pub peek : (ℕ → ℕ) → ℕ → ℕ → List ℕ
peek mem off zero = []
peek mem off (suc n) = mem off ∷ peek mem (off + 1) n

-- What an export writes: the bytes in front of the write pointer.
abbrev pub contents : Buffer → List ℕ
contents b = peek b.bytes 0 (used b)

-- A mapping as the kernel gives it (aligned and within the address space), the write pointer in it,
-- and nothing written yet from the pointer on.
pub record IsValid (b : Buffer) : Type 0 where
  pub base_aligned : b.base % 8 ≡ 0
  pub size_aligned : b.size % 8 ≡ 0
  pub size_pos : 0 < b.size
  pub in_space : b.base + b.size < 2 ^ 64
  pub above : b.base ≤ b.ptr
  pub below : b.ptr ≤ b.base + b.size
  pub blank : (i : ℕ) → used b ≤ i → b.bytes i ≡ 0
