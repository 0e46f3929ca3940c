-- ===== src/Utils/Scan.antt =====
-- The conversions of the C library that utils.c uses: sscanf's %lx, %ld, %u, %c and blank, strtol
-- with base 0, and printing by %d. Texts are lists of bytes.
use ultrasight.Common.{
  ℕ, zero, suc, ◌+◌, ◌-◌, ◌*◌, ◌/◌, ◌%◌, ◌^◌, min, ℤ, pos, negsuc, Bool, true, false, ◌&&◌, ◌||◌,
  Option, none, some, List, [], ◌∷◌, ltb, leb, ◌==◌, if◌then◌else◌,
}

abbrev pub is_space : ℕ → Bool
is_space c = c == 0x20 || (leb 9 c && leb c 13)

abbrev pub is_digit : ℕ → Bool
is_digit c = leb 0x30 c && leb c 0x39

unfoldable pub skip_spaces : List ℕ → List ℕ
skip_spaces [] = []
skip_spaces (c ∷ cs) = if is_space c then skip_spaces cs else c ∷ cs

-- The value of a digit, in any base up to 16.
abbrev pub digit_value : ℕ → Option ℕ
digit_value c =
    if is_digit c
    then some (c - 0x30)
    else if leb 0x61 c && leb c 0x66
    then some (c - 0x61 + 10)
    else if leb 0x41 c && leb c 0x46
    then some (c - 0x41 + 10)
    else none

-- A digit of the base, if the text begins with one.
unfoldable pub digit_in : ℕ → ℕ → Option ℕ
digit_in base c = elim (digit_value c) [
  | none ↦ none
  | some d ↦ if ltb d base then some d else none
]

-- The digits in front, added to `acc`, and the rest.
unfoldable pub scan_digits : (base acc : ℕ) → List ℕ → ℕ × List ℕ
unfolding digit_in
scan_digits base acc [] = (acc, [])
scan_digits base acc (c ∷ cs) = elim (digit_in base c) [
  | none ↦ (acc, c ∷ cs)
  | some d ↦ scan_digits base (acc * base + d) cs
]

-- At least one digit.
unfoldable pub scan_unsigned : ℕ → List ℕ → Option (ℕ × List ℕ)
unfolding scan_digits
scan_unsigned base [] = none
scan_unsigned base (c ∷ cs) = elim (digit_in base c) [
  | none ↦ none
  | some d ↦ some (scan_digits base d cs)
]

abbrev starts_hex : ℕ → ℕ → Bool
starts_hex c d = c == 0x30 && (d == 0x78 || d == 0x58)

-- The prefix 0x that %lx allows.
unfoldable pub skip_hex_prefix : List ℕ → List ℕ
skip_hex_prefix (c ∷ d ∷ cs) = if starts_hex c d then cs else c ∷ d ∷ cs
skip_hex_prefix cs = cs

-- %lx, without a sign; a value past `unsigned long` becomes its maximum.
unfoldable pub scan_lx : List ℕ → Option (ℕ × List ℕ)
unfolding skip_spaces skip_hex_prefix scan_unsigned
scan_lx cs = elim (scan_unsigned 16 (skip_hex_prefix (skip_spaces cs))) [
  | none ↦ none
  | some (n, rest) ↦ some (min n (2 ^ 64 - 1), rest)
]

-- %ld and %u, without a sign.
unfoldable pub scan_decimal : List ℕ → Option (ℕ × List ℕ)
unfolding skip_spaces scan_unsigned
scan_decimal cs = scan_unsigned 10 (skip_spaces cs)

-- The decimal digits of a number in front of `rest`, with fuel for the digits.
unfoldable pub print_digits : (fuel n : ℕ) → List ℕ → List ℕ
print_digits zero n rest = rest
print_digits (suc fuel) n rest =
    let more = print_digits fuel (n / 10) ((0x30 + n % 10) ∷ rest) in if n == 0 then rest else more

-- %d; an int has ten digits at most.
unfoldable pub print_int : ℤ → List ℕ
unfolding print_digits
print_int (pos zero) = 0x30 ∷ []
print_int (pos (suc n)) = print_digits 10 (suc n) []
print_int (negsuc n) = 0x2d ∷ print_digits 10 (suc n) []

unfoldable pub starts_with : List ℕ → List ℕ → Bool
starts_with [] cs = true
starts_with (p ∷ ps) [] = false
starts_with (p ∷ ps) (c ∷ cs) = p == c && starts_with ps cs

-- strchr(s, c)
unfoldable pub find_char : ℕ → List ℕ → Option (List ℕ)
find_char c [] = none
find_char c (d ∷ ds) = if d == c then some (d ∷ ds) else find_char c ds
