-- ===== src/Utils/Maps/Hex.antt =====
-- Hexadecimal numbers as the kernel prints them, and as %lx reads them.
use ultrasight.Common.{
  ℕ, zero, suc, ◌+◌, ◌-◌, ◌*◌, ◌/◌, ◌%◌, ◌^◌, min, ◌<◌, ◌≡◌, refl, ap, ◌∙◌, Bool, true, false, ◌&&◌,
  ◌||◌, none, some, List, [], ◌∷◌, ltb, ◌==◌, if◌then◌else◌, arith,
}
use ultrasight.Utils.Scan.{
  is_space, skip_spaces, digit_in, scan_digits, scan_unsigned, skip_hex_prefix, scan_lx,
}

abbrev pub hex_digit : ℕ → ℕ
hex_digit d = if ltb d 10 then 0x30 + d else 0x61 + (d - 10)

-- n / 16 ^ k
abbrev pub shift : ℕ → ℕ → ℕ
shift zero n = n
shift (suc k) n = shift k n / 16

-- The last `width` digits of a number, in front of `rest`.
unfoldable pub hex : (width n : ℕ) → List ℕ → List ℕ
hex zero n rest = rest
hex (suc k) n rest = hex_digit (shift k n % 16) ∷ hex k n rest

digit_in-hex_digit : (d : ℕ) → d < 16 → digit_in 16 (hex_digit d) ≡ some d
unfolding digit_in
digit_in-hex_digit d h = ground arith

scan_digits-hex :
    (width n : ℕ) (rest : List ℕ)
    → scan_digits 16 (shift width n) (hex width n rest) ≡ scan_digits 16 n rest
unfolding scan_digits hex
scan_digits-hex zero n rest = refl
scan_digits-hex (suc k) n rest =
    let value : shift k n / 16 * 16 + shift k n % 16 ≡ shift k n = omega arith in
    rw (scan_digits, digit_in-hex_digit (shift k n % 16) (omega arith), value)
      (scan_digits-hex k n rest)

shift-div : (k n : ℕ) → shift (suc k) n ≡ shift k (n / 16)
shift-div zero n = refl
shift-div (suc k) n = ap (λ m. m / 16) (shift-div k n)

shift_out : (k n : ℕ) → n < 16 ^ k → shift k n ≡ 0
shift_out zero n h = omega arith
shift_out (suc k) n h =
    shift-div k n
    ∙ shift_out k (n / 16)
        (let power : 16 ^ suc k ≡ 16 ^ k * 16 = omega arith in omega (arith, power))

-- The text behind a number: its first byte is no hexadecimal digit, and no x.
abbrev pub Stops : List ℕ → Type 0
Stops [] = Unit {0}
Stops (c ∷ cs) = (digit_in 16 c ≡ none) × (c == 0x78 || c == 0x58 ≡ false)

scan_digits_stop : (n : ℕ) (rest : List ℕ) → Stops rest → scan_digits 16 n rest ≡ (n, rest)
unfolding scan_digits
scan_digits_stop n [] h = refl
scan_digits_stop n (c ∷ cs) (h, no_x) = rw (scan_digits, h) refl

digit_plain :
    (d : ℕ)
    → d < 16
    → (is_space (hex_digit d) ≡ false) × (hex_digit d == 0x78 || hex_digit d == 0x58 ≡ false)
digit_plain d h = (ground arith, ground arith)

and_false : (b : Bool) → b && false ≡ false
and_false true = refl
and_false false = refl

-- The first byte is a digit, and the second is no x.
skip_hex_prefix-hex :
    (k n : ℕ) (rest : List ℕ)
    → Stops rest
    → skip_hex_prefix (hex (suc k) n rest) ≡ hex (suc k) n rest
unfolding hex skip_hex_prefix
skip_hex_prefix-hex zero n [] h = refl
skip_hex_prefix-hex zero n (c ∷ cs) (h, no_x) =
    rw (no_x, and_false (hex_digit (n % 16) == 0x30)) refl
skip_hex_prefix-hex (suc k) n rest h =
    rw (digit_plain (shift k n % 16) (omega arith)).1
      (rw (and_false (hex_digit (shift (suc k) n % 16) == 0x30)) refl)

skip_spaces-hex : (k n : ℕ) (rest : List ℕ) → skip_spaces (hex (suc k) n rest) ≡ hex (suc k) n rest
unfolding skip_spaces hex
skip_spaces-hex k n rest = rw (digit_plain (shift k n % 16) (omega arith)).0 refl

scan_unsigned-hex :
    (k n : ℕ) (rest : List ℕ)
    → n < 16 ^ suc k
    → Stops rest
    → scan_unsigned 16 (hex (suc k) n rest) ≡ some (n, rest)
unfolding scan_unsigned hex
scan_unsigned-hex k n rest fits h =
    let one_digit : shift k n % 16 ≡ shift k n = omega (arith, shift_out (suc k) n fits) in
    rw (scan_unsigned, digit_in-hex_digit (shift k n % 16) (omega arith), one_digit)
      (ap some (scan_digits-hex k n rest ∙ scan_digits_stop n rest h))

-- %lx reads the number that the kernel printed.
pub scan_lx-hex :
    (k n : ℕ) (rest : List ℕ)
    → n < 16 ^ suc k
    → n < 2 ^ 64
    → Stops rest
    → scan_lx (hex (suc k) n rest) ≡ some (n, rest)
unfolding scan_lx
scan_lx-hex k n rest fits small h =
    let below : min n (2 ^ 64 - 1) ≡ n = omega arith in
    rw
      (
        scan_lx,
        skip_spaces-hex k n rest,
        skip_hex_prefix-hex k n rest h,
        scan_unsigned-hex k n rest fits h,
        below,
      )
      refl
