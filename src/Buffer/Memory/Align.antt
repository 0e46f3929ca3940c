-- ===== src/Buffer/Memory/Align.antt =====
-- ALIGN_UP, and the write pointer brought to a multiple of eight.
use ultrasight.Common.{ℕ, ◌+◌, ◌-◌, ◌%◌, ◌^◌, ◌≤◌, ◌<◌, ◌≡◌, ◌∙◌, ap, ◌++◌, replicate, arith}
use ultrasight.Machine.{Buffer}
use ultrasight.Buffer.Memory.{align_up8, used, peek, contents, IsValid}
use ultrasight.Buffer.Memory.Peek.{peek-append, peek-blank}

-- The buffer after `ptr = ALIGN_UP(ptr, 8)`.
abbrev pub aligned : Buffer → Buffer
aligned b = record b { ptr = align_up8 b.ptr }

-- The bytes that the alignment skips.
abbrev pub padding : Buffer → ℕ
padding b = used (aligned b) - used b

-- Without a wrap, ALIGN_UP is the least multiple of eight that is not below its argument.
pub align_up8_least :
    (val : ℕ)
    → val + 7 < 2 ^ 64
    → (align_up8 val % 8 ≡ 0) × (val ≤ align_up8 val) × (align_up8 val < val + 8)
align_up8_least val h = omega arith

pub used-aligned : (b : Buffer) → IsValid b → used (aligned b) ≡ used b + padding b
used-aligned b v = omega arith

pub padding-lt : (b : Buffer) → IsValid b → padding b < 8
padding-lt b v = omega arith

pub aligned-IsValid : (b : Buffer) → IsValid b → IsValid (aligned b)
aligned-IsValid b v = record {
  base_aligned = v.base_aligned;
  size_aligned = v.size_aligned;
  size_pos = v.size_pos;
  in_space = v.in_space;
  above = omega arith;
  below = omega arith;
  blank = λ i h. v.blank i (omega (arith, used-aligned b v));
}

-- The alignment pads the contents with zero bytes.
pub contents-aligned :
    (b : Buffer) → IsValid b → contents (aligned b) ≡ contents b ++ replicate (padding b) 0
contents-aligned b v =
    ap (peek b.bytes 0) (used-aligned b v)
    ∙ peek-append b.bytes 0 (used b) (padding b) (used b) (omega arith)
    ∙ ap (λ r. contents b ++ r) (peek-blank b.bytes (used b) (padding b) v.blank)
