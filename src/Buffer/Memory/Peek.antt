-- ===== src/Buffer/Memory/Peek.antt =====
-- Reading back what was copied into a mapping.
use ultrasight.Common.{
  ℕ, zero, suc, ◌+◌, ◌-◌, ◌≤◌, ◌<◌, ◌≡◌, refl, ◌∙◌, ap, List, [], ◌∷◌, ◌++◌, length, get_or,
  replicate, arith,
}
use ultrasight.Buffer.Memory.{poke, peek}

pub peek-blank :
    (mem : ℕ → ℕ) (off n : ℕ) → ((i : ℕ) → off ≤ i → mem i ≡ 0) → peek mem off n ≡ replicate n 0
unfolding peek
peek-blank mem off zero h = refl
peek-blank mem off (suc n) h =
    rw (h off (omega arith), peek-blank mem (off + 1) n (λ i le. h i (omega arith)))

peek_at : (mem : ℕ → ℕ) {i j : ℕ} (n : ℕ) → i ≡ j → peek mem i n ≡ peek mem j n
peek_at mem n e = ap (λ i. peek mem i n) e

pub peek-append :
    (mem : ℕ → ℕ) (off m n j : ℕ)
    → off + m ≡ j
    → peek mem off (m + n) ≡ peek mem off m ++ peek mem j n
unfolding peek
peek-append mem off zero n j e = ap (peek mem off) (omega arith) ∙ peek_at mem n (omega arith)
peek-append mem off (suc m) n j e =
    ap (peek mem off) {y = suc (m + n)} (omega arith)
    ∙ ap (λ r. mem off ∷ r) (peek-append mem (off + 1) m n j (omega arith))

-- Bytes in front of a copy stay.
pub peek-poke_before :
    (mem : ℕ → ℕ) (off i n : ℕ) (xs : List ℕ)
    → i + n ≤ off
    → peek (poke mem off xs) i n ≡ peek mem i n
unfolding peek poke
peek-poke_before mem off i zero xs h = refl
peek-poke_before mem off i (suc n) xs h = ground (arith, peek-poke_before mem off (i + 1) n xs)

-- A mapping that agrees with a list reads as the list.
peek-list :
    (mem : ℕ → ℕ) (off : ℕ) (xs : List ℕ)
    → ((i j : ℕ) → i < length xs → off + i ≡ j → mem j ≡ get_or xs i 0)
    → peek mem off (length xs) ≡ xs
unfolding peek
peek-list mem off [] h = refl
peek-list mem off (x ∷ xs) h = rw (
  h 0 off (omega arith) (omega arith),
  peek-list mem (off + 1) xs (λ i j lt e. h (suc i) j (omega arith) (omega arith)),
)

poke_inside :
    (mem : ℕ → ℕ) (off i j : ℕ) (xs : List ℕ)
    → i < length xs
    → off + i ≡ j
    → poke mem off xs j ≡ get_or xs i 0
unfolding poke
poke_inside mem off i j xs lt e = let at : j - off ≡ i = omega arith in ground arith

-- The copy is read back behind the bytes in front of it.
pub peek-poke :
    (mem : ℕ → ℕ) (off : ℕ) (xs : List ℕ)
    → peek (poke mem off xs) 0 (off + length xs) ≡ peek mem 0 off ++ xs
peek-poke mem off xs =
    peek-append (poke mem off xs) 0 off (length xs) off (omega arith)
    ∙ rw (
      peek-poke_before mem off 0 off xs (omega arith),
      peek-list (poke mem off xs) off xs (λ i j lt e. poke_inside mem off i j xs lt e),
    )

-- Behind the copy nothing changes.
pub poke_behind :
    (mem : ℕ → ℕ) (off i : ℕ) (xs : List ℕ) → off + length xs ≤ i → poke mem off xs i ≡ mem i
unfolding poke
poke_behind mem off i xs h = ground arith
