-- ===== src/Boards/Inputs.antt =====
-- The inputs of the trace bus: no two links of a board end at the same one.
use ultrasight.Common.{
  ℕ, zero, suc, ◌≡◌, refl, ap, sym, ◌≢◌, Bool, true, false, ◌&&◌, not, List, [], ◌∷◌, map, ◌==◌,
  arith,
}
use ultrasight.Machine.{Device, Call, Machine, after, for_range}
use ultrasight.Boards.{KnownBoard, known_boards}
use ultrasight.Boards.Register.{Registry}
use ultrasight.Boards.Zcu104.{do_registration_zcu104}
use ultrasight.Boards.Zynq7000.{do_registration_zynq7000}
use ultrasight.Boards.Wiring.{Link, links, Listed, head, tail}

-- The handles of two addresses differ, and a replicator is no device of the bus.
pub record Apart (registry : Registry) : Type 0 where
  pub device_apart : (a b : ℕ) → registry.device a ≡ registry.device b → a ≡ b
  pub replicator_apart : (n a : ℕ) → registry.replicator n ≢ registry.device a

abbrev pub Absent {ℓ} : {A : Type ℓ} → A → List A → Type ℓ
Absent x [] = Unit
Absent x (y ∷ ys) = (x ≢ y) × Absent x ys

abbrev pub Distinct {ℓ} : {A : Type ℓ} → List A → Type ℓ
Distinct [] = Unit
Distinct (x ∷ xs) = Absent x xs × Distinct xs

-- The device and the port at which each link ends.
abbrev pub inputs : List Call → List (Device × ℕ)
inputs l = map (λ (k : Link). (k.target, k.input)) (links l)

map-Absent :
    {A B : Type 0} (f : A → B) (x : A) (xs : List A)
    → ((a b : A) → f a ≡ f b → a ≡ b)
    → Absent x xs
    → Absent (f x) (map f xs)
map-Absent f x [] inj h = tt
map-Absent f x (y ∷ ys) inj (d, h) = (λ e. d (inj x y e), map-Absent f x ys inj h)

map-Distinct :
    {A B : Type 0} (f : A → B) (xs : List A)
    → ((a b : A) → f a ≡ f b → a ≡ b)
    → Distinct xs
    → Distinct (map f xs)
map-Distinct f [] inj h = tt
map-Distinct f (x ∷ xs) inj (a, h) = (map-Absent f x xs inj a, map-Distinct f xs inj h)

-- An input by the address of its device, with 0 for the replicator, and its port.
abbrev place : Registry → ℕ → Device
place registry zero = registry.replicator 2
place registry (suc n) = registry.device (suc n)

abbrev at : Registry → ℕ × ℕ → Device × ℕ
at registry (a, port) = (place registry a, port)

place_apart :
    (registry : Registry) → Apart registry → (a b : ℕ) → place registry a ≡ place registry b → a ≡ b
place_apart registry h zero zero e = refl
place_apart registry h zero (suc b) e = absurd (h.replicator_apart 2 (suc b) e)
place_apart registry h (suc a) zero e = absurd (h.replicator_apart 2 (suc a) (sym e))
place_apart registry h (suc a) (suc b) e = h.device_apart (suc a) (suc b) e

at_apart :
    (registry : Registry) → Apart registry → (x y : ℕ × ℕ) → at registry x ≡ at registry y → x ≡ y
at_apart registry h (a, p) (b, q) e =
    cc (place_apart registry h a b (ap (λ r. r.0) e), ap (λ r. r.1) e)

abbrev same : ℕ × ℕ → ℕ × ℕ → Bool
same (a, p) (b, q) = a == b && p == q

abbrev absent : ℕ × ℕ → List (ℕ × ℕ) → Bool
absent x [] = true
absent x (y ∷ ys) = not (same x y) && absent x ys

abbrev distinct : List (ℕ × ℕ) → Bool
distinct [] = true
distinct (x ∷ xs) = absent x xs && distinct xs

same_refl : (x : ℕ × ℕ) → same x x ≡ true
same_refl (a, p) = ground arith

both : (a b : Bool) → a && b ≡ true → (a ≡ true) × (b ≡ true)
both true b e = (refl, e)
both false b e = cc

absent-Absent : (x : ℕ × ℕ) (xs : List (ℕ × ℕ)) → absent x xs ≡ true → Absent x xs
absent-Absent x [] e = tt
absent-Absent x (y ∷ ys) e =
    let (d, h) = both (not (same x y)) (absent x ys) e in
    (λ same_input. cc (same_refl x, same_input, d), absent-Absent x ys h)

distinct-Distinct : (xs : List (ℕ × ℕ)) → distinct xs ≡ true → Distinct xs
distinct-Distinct [] e = tt
distinct-Distinct (x ∷ xs) e =
    let (a, h) = both (absent x xs) (distinct xs) e in
    (absent-Absent x xs a, distinct-Distinct xs h)

placed-Distinct :
    (registry : Registry) (xs : List (ℕ × ℕ))
    → Apart registry
    → distinct xs ≡ true
    → Distinct (map (at registry) xs)
placed-Distinct registry xs h e =
    map-Distinct (at registry) xs (at_apart registry h) (distinct-Distinct xs e)

-- Of every known board, where no link was made before: no two links of the registration end at the same
-- input of the same device, if CSAL gives the devices of different addresses different handles, and the
-- replicator another one.
pub known_boards-Distinct :
    (registry : Registry) (s : Machine) (b : KnownBoard)
    → Listed b known_boards
    → Apart registry
    → links s.log ≡ []
    → Distinct (inputs (after (b.do_registration registry s)).log)
unfolding do_registration_zcu104 do_registration_zynq7000 for_range
known_boards-Distinct registry s b head h e = rw e (
    placed-Distinct registry
      ((0xFE980000, 0)
        ∷ (0xFE970000, 0)
        ∷ (0, 0)
        ∷ (0xFE950000, 0)
        ∷ (0xFE930000, 2)
        ∷ (0xFE930000, 0)
        ∷ (0xFE940000, 0)
        ∷ (0xFE920000, 3)
        ∷ (0xFE920000, 2)
        ∷ (0xFE920000, 1)
        ∷ (0xFE920000, 0)
        ∷ [])
      h refl)
known_boards-Distinct registry s b (tail head) h e = rw e (
    placed-Distinct registry
      ((0xF8801000, 0) ∷ (0xF8803000, 0) ∷ (0, 0) ∷ (0xF8804000, 1) ∷ (0xF8804000, 0) ∷ []) h refl)
known_boards-Distinct registry s b (tail (tail l)) h e = elim l [ ]
