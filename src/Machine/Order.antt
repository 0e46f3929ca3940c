-- ===== src/Machine/Order.antt =====
-- Phases: each call belongs to one, or to none, and a procedure keeps their order if its calls come in
-- phases that never fall.
pub mod Level
use ultrasight.Common.{
  ℕ, zero, suc, ◌+◌, ◌≤◌, ℤ, Bool, true, false, ◌≡◌, ap, ◌∙◌, ◌⊎◌, inl, inr, Option, none, some,
  List, [], ◌∷◌, leb, if◌then◌else◌, arith,
}
use ultrasight.Machine.Calls.{Call}
use ultrasight.Machine.State.{Env, Machine}
use ultrasight.Machine.Monad.{
  Flow, next, done, fault, Proc, ◌>>=◌, ◌>>◌, return, return_if, assert, when, fn, get, ask, emit,
  for_range, after, bind, returned, pure, modify, ask_out,
}

abbrev pub Phases : Type 0
Phases = Call → Option ℕ

-- The highest phase of a log, or `none` if a call came after one of a higher phase.
abbrev pub stage_step : Option ℕ → Option ℕ → Option ℕ
stage_step p none = none
stage_step none (some k) = some k
stage_step (some p) (some k) = if leb k p then some p else none

abbrev pub stage : Phases → List Call → Option ℕ
stage phase [] = some 0
stage phase (c ∷ l) = stage_step (phase c) (stage phase l)

abbrev pub Within : Phases → ℕ → Machine → Type 0
Within phase hi s = (k : ℕ) × (stage phase s.log ≡ some k) × (k ≤ hi)

-- From a log in order and within `lo`, the log is in order and within `hi`.
pub record Climbs (phase : Phases) (lo hi : ℕ) {A : Type 0} (m : Proc A) : Type 0 where
  pub climbs : (s : Machine) → Within phase lo s → Within phase hi (after (m s))

module _ (phase : Phases) where
  within-mono : {a b : ℕ} (s : Machine) → a ≤ b → Within phase a s → Within phase b s
  within-mono s h (k, e, le) = (k, e, omega arith)

  return_if-Climbs :
      {lo : ℕ} (b : Bool) (r : ℤ) (s : Machine)
      → Within phase lo s
      → Within phase lo (after (return_if b r s))
  return_if-Climbs true r s w = w
  return_if-Climbs false r s w = w

  logged :
      {lo hi : ℕ} (c : Call) (s : Machine)
      → lo ≤ hi
      → (phase c ≡ none) ⊎ (phase c ≡ some hi)
      → Within phase lo s
      → Within phase hi (record s { log = c ∷ s.log })
  logged {hi} c s le (inl e) (k, p, h) = (k, rw (e, p), omega arith)
  logged {hi} c s le (inr e) (k, p, h) = (hi, rw (e, p) (ground arith), omega arith)

  assert-Climbs :
      {lo : ℕ} (b : Bool) (s : Machine) → Within phase lo s → Within phase lo (after (assert b s))
  assert-Climbs true s w = w
  assert-Climbs false s w = w

  fn-Climbs :
      {lo : ℕ} (f : Flow (Unit {0}))
      → Within phase lo (after f)
      → Within phase lo (after (returned f))
  fn-Climbs (next a t) w = w
  fn-Climbs (done r t) w = w
  fn-Climbs (fault t) w = w

module _ {phase : Phases} where
  -- A procedure may start in an earlier phase.
  pub Climbs-from :
      {lo mid hi : ℕ} {A : Type 0} {m : Proc A}
      → lo ≤ mid
      → Climbs phase mid hi m
      → Climbs phase lo hi m
  Climbs-from le h = record { climbs = λ s w. h.climbs s (within-mono phase s le w) }

  bind-Climbs :
      {A B : Type 0} {lo hi : ℕ} (f : Flow A) (k : A → Proc B)
      → lo ≤ hi
      → Within phase lo (after f)
      → ((a : A) → Climbs phase lo hi (k a))
      → Within phase hi (after (bind f k))
  bind-Climbs (next a t) k le w h = (h a).climbs t w
  bind-Climbs (done r t) k le w h = within-mono phase t le w
  bind-Climbs (fault t) k le w h = within-mono phase t le w

  pub Climbs->> :
      (mid : ℕ) {lo hi : ℕ} {A B : Type 0} {m : Proc A} {k : Proc B}
      → Climbs phase lo mid m
      → Climbs phase mid hi k
      → mid ≤ hi
      → Climbs phase lo hi (m >> k)
  Climbs->> mid {m} {k} h j le = record {
    climbs = λ s w. bind-Climbs (m s) (λ _. k) le (h.climbs s w) (λ _. j);
  }

  -- A step that stays in its phase.
  pub Climbs->>= :
      {lo hi : ℕ} {A B : Type 0} {m : Proc A} {f : A → Proc B}
      → lo ≤ hi
      → Climbs phase lo lo m
      → ((a : A) → Climbs phase lo hi (f a))
      → Climbs phase lo hi (m >>= f)
  Climbs->>= {m} {f} le h j = record { climbs = λ s w. bind-Climbs (m s) f le (h.climbs s w) j }

  pub Climbs-pure : {lo : ℕ} {A : Type 0} {a : A} → Climbs phase lo lo (pure a)
  Climbs-pure = record { climbs = λ s w. w }

  pub Climbs-modify :
      {lo : ℕ} {f : Machine → Machine}
      → ((s : Machine) → (f s).log ≡ s.log)
      → Climbs phase lo lo (modify f)
  Climbs-modify {f} h = record { climbs = λ s (k, e, le). (k, ap (stage phase) (h s) ∙ e, le) }

  pub if-Climbs :
      {lo hi : ℕ} {A : Type 0} (b : Bool) {m k : Proc A}
      → Climbs phase lo hi m
      → Climbs phase lo hi k
      → Climbs phase lo hi (if b then m else k)
  if-Climbs true h j = h
  if-Climbs false h j = j

  pub Climbs-get : {lo : ℕ} → Climbs phase lo lo get
  Climbs-get = record { climbs = λ s w. w }

  pub Climbs-return : {lo : ℕ} (r : ℤ) → Climbs phase lo lo (return r)
  Climbs-return r = record { climbs = λ s w. w }

  pub Climbs-return_if : {lo : ℕ} (b : Bool) (r : ℤ) → Climbs phase lo lo (return_if b r)
  Climbs-return_if b r = record { climbs = return_if-Climbs phase b r }

  pub Climbs-assert : {lo : ℕ} (b : Bool) → Climbs phase lo lo (assert b)
  Climbs-assert b = record { climbs = assert-Climbs phase b }

  pub Climbs-fault : {lo : ℕ} {A : Type 0} → Climbs phase lo lo {A = A} fault
  Climbs-fault = record { climbs = λ s w. w }

  when-Climbs :
      {lo hi : ℕ} (b : Bool) {m : Proc (Unit {0})} (s : Machine)
      → lo ≤ hi
      → Climbs phase lo hi m
      → Within phase lo s
      → Within phase hi (after (when b m s))
  when-Climbs true s le h w = h.climbs s w
  when-Climbs false s le h w = within-mono phase s le w

  pub Climbs-when :
      {lo hi : ℕ} (b : Bool) {m : Proc (Unit {0})}
      → lo ≤ hi
      → Climbs phase lo hi m
      → Climbs phase lo hi (when b m)
  Climbs-when b le h = record { climbs = λ s w. when-Climbs b s le h w }

  -- A call of no phase stays, and one of a phase takes the log there.
  pub Climbs-silent : {lo : ℕ} {c : Call} → phase c ≡ none → Climbs phase lo lo (emit c)
  Climbs-silent {c} e = record { climbs = λ s w. logged phase c s (omega arith) (inl e) w }

  pub Climbs-emit :
      {lo hi : ℕ} {c : Call} → lo ≤ hi → phase c ≡ some hi → Climbs phase lo hi (emit c)
  Climbs-emit {c} le e = record { climbs = λ s w. logged phase c s le (inr e) w }

  pub Climbs-ask_silent :
      (env : Env) {lo : ℕ} {c : Call} → phase c ≡ none → Climbs phase lo lo (ask env c)
  Climbs-ask_silent env {c} e = record { climbs = λ s w. logged phase c s (omega arith) (inl e) w }

  pub Climbs-ask :
      (env : Env) {lo hi : ℕ} {c : Call}
      → lo ≤ hi
      → phase c ≡ some hi
      → Climbs phase lo hi (ask env c)
  Climbs-ask env {c} le e = record { climbs = λ s w. logged phase c s le (inr e) w }

  pub Climbs-ask_out :
      (env : Env) {lo : ℕ} {c : Call} → phase c ≡ some lo → Climbs phase lo lo (ask_out env c)
  Climbs-ask_out env {c} e = record { climbs = λ s w. logged phase c s (omega arith) (inr e) w }

  pub Climbs-ask_out_silent :
      (env : Env) {lo : ℕ} {c : Call} → phase c ≡ none → Climbs phase lo lo (ask_out env c)
  Climbs-ask_out_silent env {c} e = record {
    climbs = λ s w. logged phase c s (omega arith) (inl e) w;
  }

  pub Climbs-fn :
      {lo hi : ℕ} {m : Proc (Unit {0})} → Climbs phase lo hi m → Climbs phase lo hi (fn m)
  Climbs-fn {m} h = record { climbs = λ s w. fn-Climbs phase (m s) (h.climbs s w) }

  pub for_range-Climbs :
      (n i : ℕ) {lo : ℕ} {body : ℕ → Proc (Unit {0})}
      → ((j : ℕ) → Climbs phase lo lo (body j))
      → Climbs phase lo lo (for_range n i body)
  unfolding for_range
  for_range-Climbs zero i h = record { climbs = λ s w. w }
  for_range-Climbs (suc n) i {body} h = record {
    climbs = λ s w.
        bind-Climbs (body i s) (λ _. for_range n (i + 1) body) (omega arith) ((h i).climbs s w)
          (λ _. for_range-Climbs n (i + 1) h);
  }
