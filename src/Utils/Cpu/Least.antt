-- ===== src/Utils/Cpu/Least.antt =====
-- The CPU that `find_free_cpu` and `get_preferred_cpu` settle on.
use ultrasight.Common.{
  ◌≡◌, inl, inr, Bool-cases, ℕ, zero, suc, ◌+◌, ◌≤◌, ◌<◌, true, false, Option, none, some, List,
  arith,
}
use native.Mathlib.Decide.{dec_lt}
use ultrasight.Utils.Cpu.{member, first_outside}

-- What a search of the `n` CPUs from `i` on should find: the least that is outside the set, or, if
-- there is none, all of them are in it.
abbrev pub Least : (n i : ℕ) → List ℕ → Option ℕ → Type 0
Least n i used (some c) =
    (i ≤ c)
    × (c < i + n)
    × (member c used ≡ false)
    × ((d : ℕ) → i ≤ d → d < c → member d used ≡ true)
Least n i used none = (d : ℕ) → i ≤ d → d < i + n → member d used ≡ true

member_at : {i d : ℕ} (used : List ℕ) → i ≡ d → member i used ≡ true → member d used ≡ true
member_at used e h = rw (← e) h

step-Least :
    (n i : ℕ) (used : List ℕ) (o : Option ℕ)
    → member i used ≡ true
    → Least n (i + 1) used o
    → Least (suc n) i used o
step-Least n i used none h all = λ d le lt. elim (dec_lt i d) [
  | yes p ↦ all d (omega arith) (omega arith)
  | no p ↦ member_at used (omega arith) h
]
step-Least n i used (some c) h (le, lt, out, least) = (
  omega arith,
  omega arith,
  out,
  λ d le' lt'. elim (dec_lt i d) [
    | yes p ↦ least d (omega arith) lt'
    | no p ↦ member_at used (omega arith) h
  ],
)

-- Both functions scan for the first CPU that is not in a set, and that scan finds the least one.
pub first_outside-Least : (n i : ℕ) (used : List ℕ) → Least n i used (first_outside n i used)
unfolding first_outside
first_outside-Least zero i used = λ d le lt. absurd (omega arith)
first_outside-Least (suc n) i used = elim (Bool-cases (member i used)) [
  | inl taken ↦ rw taken (step-Least n i used _ taken (first_outside-Least n (i + 1) used))
  | inr free ↦ rw free (omega arith, omega arith, free, λ d le lt. absurd (omega arith))
]
