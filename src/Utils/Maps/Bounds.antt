-- ===== src/Utils/Maps/Bounds.antt =====
-- `setup_map_info` stays inside its table.
use ultrasight.Common.{
  ◌≡◌, refl, ap, ◌∙◌, inl, inr, Bool-cases, ℕ, zero, suc, ◌+◌, ◌≤◌, ◌<◌, ℤ, pos, u64, is_neg, not,
  ◌==◌, Option, none, some, List, [], ◌∷◌, ◌++◌, codes, length, set, leb, arith,
}
use ultrasight.Machine.{
  read_line, Env, Machine, MapInfo, Flow, Call, fclose, fopen, emit, modify, for_range, return,
  ◌>>◌, next, done, fault, bind, value, after, returned,
}
use ultrasight.Machine.Keeps.{Ignores, Keeps, keeping, Keeps-for_range}
use ultrasight.Machine.Fails.{Fails, FailsWith, failing, for_range-Fails}
use ultrasight.Utils.Scan.{find_char, print_int}
use ultrasight.Utils.Maps.Parse.{Fields, scan_line, strip_newline}
use ultrasight.Utils.Maps.Setup.{add_line, map_entry, read_maps, map_file, setup_map_info}

abbrev pub table_length : Machine → ℕ
table_length s = length s.map_info

length-set {ℓ} : {A : Type ℓ} (xs : List A) (i : ℕ) (x : A) → length (set xs i x) ≡ length xs
length-set [] i x = refl
length-set (y ∷ ys) zero x = refl
length-set (y ∷ ys) (suc i) x = ap suc (length-set ys i x)

-- At most as many entries as the table has room for, and the table's length kept.
abbrev Fits : (max : ℕ) → ℕ × List MapInfo → Type 0
Fits max acc = (acc.0 ≤ max) × (length acc.1 ≡ max)

entered :
    {max count : ℕ} (infos : List MapInfo) (f : Fields) (found : Option (List ℕ))
    → Fits max (count, infos)
    → count < max
    → Fits max (elim found [
      | none ↦ (count, infos)
      | some path ↦ (count + 1, set infos count (map_entry f path))
    ])
entered infos f none h lt = h
entered {count} infos f (some path) (le, len) lt =
    (omega arith, length-set infos count (map_entry f path) ∙ len)

add_line-Fits :
    (max : ℕ) (f : Fields) (line : List ℕ) (count : ℕ) (infos : List MapInfo)
    → Fits max (count, infos)
    → Fits max (add_line max f line count infos)
unfolding add_line
add_line-Fits max f line count infos h = elim (Bool-cases (not (f.x == 0x78))) [
  | inl skip ↦ rw skip h
  | inr run ↦ elim (Bool-cases (leb max count)) [
    | inl full ↦ rw (run, full) h
    | inr room ↦
        let lt : count < max = ground arith in
        rw (run, room) (entered infos f (find_char 0x2f line) h lt)
  ]
]

-- What the first loop returns.
abbrev Reads : (max : ℕ) → Flow (ℕ × List MapInfo) → Type 0
Reads max (next acc t) = Fits max acc
Reads max (done r t) = ⊥
Reads max (fault t) = Unit {0}

read_maps-Reads :
    (env : Env) (fuel max : ℕ) (fp : ℤ) (f : Fields) (acc : ℕ × List MapInfo) (s : Machine)
    → Fits max acc
    → Reads max (read_maps env fuel max fp f acc s)
unfolding read_maps
read_maps-Reads env zero max fp f acc s h = tt
read_maps-Reads env (suc fuel) max fp f acc s h = elim (Bool-cases (is_neg readn)) [
  | inl end ↦ rw end h
  | inr more ↦ rw more (
      read_maps-Reads env fuel max fp f' (add_line max f' line acc.0 acc.1) read
        (add_line-Fits max f' line acc.0 acc.1 h))
]
  where
    readn : ℤ
    readn = env.ret s.log (read_line fp)

    line : List ℕ
    line = strip_newline (env.out s.log (read_line fp))

    f' : Fields
    f' = scan_line f line

    read : Machine
    read = record s { log = read_line fp ∷ s.log }

map_file-Fails : (env : Env) (i : ℕ) → Fails (map_file env i)
unfolding map_file
map_file-Fails env i = search failing depth 30

quiet : (c : Call) → Ignores table_length c
quiet c = record { ignores = λ s. refl }

map_file-Keeps : (env : Env) (i : ℕ) → Keeps table_length (map_file env i)
unfolding map_file
map_file-Keeps env i = search (keeping, quiet, length-set) depth 30

-- The number of entries that is returned, and the table's length then.
abbrev Bounded : (max : ℕ) → Flow (Unit {0}) → Type 0
Bounded max f =
    (n : ℕ)
    → value (returned f) ≡ some (pos n)
    → (n ≤ max) × (table_length (after (returned f)) ≡ max)

counted :
    (count max : ℕ) (r : Flow (Unit {0}))
    → count ≤ max
    → FailsWith r
    → table_length (after r) ≡ max
    → Bounded max (bind r (λ _. return (pos count)))
counted count max (next a t) le h len n e = (ground arith, len)
counted count max (done r t) le h len n e = cc
counted count max (fault t) le h len n e = cc

after_reading :
    (env : Env) (fp : ℤ) (max : ℕ) (r : Flow (ℕ × List MapInfo))
    → Reads max r
    → Bounded max (
        bind r λ (count, infos).
          modify (λ t. record t { map_info = infos })
          >> (emit (fclose fp) >> (for_range count 0 (map_file env) >> return (pos count))))
after_reading env fp max (next (count, infos) t) (le, len) =
    counted count max (for_range count 0 (map_file env) closed) le
      ((for_range-Fails count 0 (map_file-Fails env)).fails closed)
      ((Keeps-for_range count 0 (map_file-Keeps env)).keeps closed ∙ len)
  where
    closed : Machine
    closed = record t { map_info = infos; log = fclose fp ∷ t.log }
after_reading env fp max (done r t) h = absurd h
after_reading env fp max (fault t) h = λ n e. cc

-- From a table of `info_count_max` entries, a count that `setup_map_info` returns is at most
-- `info_count_max`, and the table has kept its length: no entry was written, or mapped, behind its end.
pub setup_map_info-Bounded :
    (env : Env) (fuel : ℕ) (f : Fields) (pid : ℤ) (info_count_max : ℕ) (s : Machine) (n : ℕ)
    → table_length s ≡ info_count_max
    → let r = setup_map_info env fuel f pid info_count_max s in
      value r ≡ some (pos n) → (n ≤ info_count_max) × (table_length (after r) ≡ info_count_max)
unfolding setup_map_info
setup_map_info-Bounded env fuel f pid info_count_max s n len = elim (Bool-cases (u64 fp == 0)) [
  | inl null ↦ rw null (λ e. cc)
  | inr ok ↦ rw ok (
      after_reading env fp info_count_max
        (read_maps env fuel info_count_max fp f (0, s.map_info) asked)
        (read_maps-Reads env fuel info_count_max fp f (0, s.map_info) asked (omega arith, len)) n)
]
  where
    path : List ℕ
    path = codes "/proc/" ++ print_int pid ++ codes "/maps"

    fp : ℤ
    fp = env.ret s.log (fopen path)

    asked : Machine
    asked = record s { log = fopen path ∷ s.log }
