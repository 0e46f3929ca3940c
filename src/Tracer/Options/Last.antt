-- ===== src/Tracer/Options/Last.antt =====
-- What the options leave in the globals.
use ultrasight.Common.{
  ℕ, ◌≡◌, refl, subst, ℤ, pos, Bool, true, false, ◌||◌, Option, none, some, List, [], ◌∷◌, ◌==◌,
  if◌then◌else◌, Bool-cases, inl, inr, arith,
}
use ultrasight.Machine.{Machine, next, done}
use ultrasight.Tracer.Options.{handle_option, handle_options, atoi, name_of, verbose_level}

abbrev pub Arg : Type 0
Arg = Option (List ℕ)

-- The argument of the last option of that letter.
abbrev pub last_of : ℕ → List (ℕ × Arg) → Option Arg
last_of letter [] = none
last_of letter ((opt, optarg) ∷ rest) = elim (last_of letter rest) [
  | none ↦ if opt == letter then some optarg else none
  | some later ↦ some later
]

-- A value read from the argument, or the default where the option is not given.
abbrev pub given {ℓ} : {A : Type ℓ} → (Arg → A) → Option Arg → A → A
given f none default = default
given f (some optarg) default = f optarg

-- The number that an argument spells.
abbrev pub int_of : Arg → ℤ
int_of none = pos 0
int_of (some text) = atoi text

abbrev pub is_help : List (ℕ × Arg) → Bool
is_help [] = false
is_help ((opt, optarg) ∷ rest) = opt == b'h' || is_help rest

-- The options in front of the first -h.
abbrev pub before_help : List (ℕ × Arg) → List (ℕ × Arg)
before_help [] = []
before_help ((opt, optarg) ∷ rest) = if opt == b'h' then [] else (opt, optarg) ∷ before_help rest

-- The globals once the options are read: each is what the last option for it says.
abbrev pub configured : List (ℕ × Arg) → Machine → Machine
configured os s = record s {
  board_name = given name_of (last_of b'b' os) s.board_name;
  trace_cpu = given int_of (last_of b'c' os) s.trace_cpu;
  export_config = given (λ _. true) (last_of b'e' os) s.export_config;
  fetcher_on = given (λ _. true) (last_of b'f' os) s.fetcher_on;
  udmabuf_num = given int_of (last_of b'u' os) s.udmabuf_num;
  ksight_on = given (λ _. true) (last_of b'k' os) s.ksight_on;
  registration_verbose = given verbose_level (last_of b'v' os) s.registration_verbose;
}

-- -c and --udmabuf come with their argument.
abbrev pub Armed : ℕ → Arg → Type 0
Armed opt (some text) = Unit {0}
Armed opt none = (opt == b'c' ≡ false) × (opt == b'u' ≡ false)

abbrev pub AllArmed : List (ℕ × Arg) → Type 0
AllArmed [] = Unit {0}
AllArmed ((opt, optarg) ∷ rest) = Armed opt optarg × AllArmed rest

-- The letters of the switch.
data Letter : ℕ → Type 0 where
  letter_b : Letter b'b'
  letter_c : Letter b'c'
  letter_e : Letter b'e'
  letter_f : Letter b'f'
  letter_u : Letter b'u'
  letter_k : Letter b'k'
  letter_v : Letter b'v'
  letter_h : Letter b'h'
  other :
      {opt : ℕ}
      → opt == b'b' ≡ false
      → opt == b'c' ≡ false
      → opt == b'e' ≡ false
      → opt == b'f' ≡ false
      → opt == b'u' ≡ false
      → opt == b'k' ≡ false
      → opt == b'v' ≡ false
      → opt == b'h' ≡ false
      → Letter opt

Letter-or : (k opt : ℕ) → Letter k → (opt == k ≡ false → Letter opt) → Letter opt
Letter-or k opt h or = elim (Bool-cases (opt == k)) [
  | inl e ↦ let same : k ≡ opt = ground arith in subst Letter same h
  | inr e ↦ or e
]

letter : (opt : ℕ) → Letter opt
letter opt = Letter-or b'b' opt letter_b λ b. Letter-or b'c' opt letter_c λ c.
    Letter-or b'e' opt letter_e λ e. Letter-or b'f' opt letter_f λ f.
      Letter-or b'u' opt letter_u λ u.
        Letter-or b'k' opt letter_k λ k.
          Letter-or b'v' opt letter_v λ v. Letter-or b'h' opt letter_h λ h. other b c e f u k v h

-- One option by itself.
abbrev applied : ℕ → Arg → Machine → Machine
applied opt optarg s = configured ((opt, optarg) ∷ []) s

handle_option-applied :
    (opt : ℕ) (optarg : Arg) (s : Machine)
    → Letter opt
    → Armed opt optarg
    → handle_option opt optarg s
      ≡ (if opt == b'h' then done (pos 0) s else next tt (applied opt optarg s))
unfolding handle_option
handle_option-applied opt optarg s letter_b h = refl
handle_option-applied opt (some text) s letter_c h = refl
handle_option-applied opt none s letter_c h = cc
handle_option-applied opt optarg s letter_e h = refl
handle_option-applied opt optarg s letter_f h = refl
handle_option-applied opt (some text) s letter_u h = refl
handle_option-applied opt none s letter_u h = cc
handle_option-applied opt optarg s letter_k h = refl
handle_option-applied opt optarg s letter_v h = refl
handle_option-applied opt optarg s letter_h h = refl
handle_option-applied opt optarg s (other b c e f u k v n) h = rw (b, c, e, f, u, k, v, n) refl

-- An option in front is overridden by a later one of its letter.
given_or :
    {A : Type 0} (r this : Option Arg) (f : Arg → A) (default : A)
    → given f r (given f this default)
      ≡ given f (elim r [ none ↦ this | some later ↦ some later ]) default
given_or none this f default = refl
given_or (some later) this f default = refl

given_earlier :
    {A : Type 0} (k opt : ℕ) (optarg : Arg) (rest : List (ℕ × Arg)) (f : Arg → A) (default : A)
    → given f (last_of k rest) (given f (last_of k ((opt, optarg) ∷ [])) default)
      ≡ given f (last_of k ((opt, optarg) ∷ rest)) default
given_earlier k opt optarg rest f default =
    given_or (last_of k rest) (if opt == k then some optarg else none) f default

configured_earlier :
    (opt : ℕ) (optarg : Arg) (rest : List (ℕ × Arg)) (s : Machine)
    → configured rest (applied opt optarg s) ≡ configured ((opt, optarg) ∷ rest) s
configured_earlier opt optarg rest s =
    rw
      (
        given_earlier b'b' opt optarg rest name_of s.board_name,
        given_earlier b'c' opt optarg rest int_of s.trace_cpu,
        given_earlier b'e' opt optarg rest (λ _. true) s.export_config,
        given_earlier b'f' opt optarg rest (λ _. true) s.fetcher_on,
        given_earlier b'u' opt optarg rest int_of s.udmabuf_num,
        given_earlier b'k' opt optarg rest (λ _. true) s.ksight_on,
        given_earlier b'v' opt optarg rest verbose_level s.registration_verbose,
      )
      refl

-- Whatever options are given, those for -c and --udmabuf with an argument: the loop ends with each
-- global as the last option for it in front of the first -h says, and as before where there is none; at
-- an -h, the program ends with status 0.
pub handle_options-Last :
    (os : List (ℕ × Arg)) (s : Machine)
    → AllArmed os
    → handle_options os s ≡ (
        if is_help os
        then done (pos 0) (configured (before_help os) s)
        else next tt (configured (before_help os) s))
unfolding handle_options
handle_options-Last [] s h = refl
handle_options-Last ((opt, optarg) ∷ rest) s (a, h) = elim (Bool-cases (opt == b'h')) [
  | inl help ↦ rw (handle_option-applied opt optarg s (letter opt) a, help) refl
  | inr more ↦
      rw
        (
          handle_option-applied opt optarg s (letter opt) a,
          more,
          handle_options-Last rest (applied opt optarg s) h,
          configured_earlier opt optarg (before_help rest) s,
        )
        refl
]
