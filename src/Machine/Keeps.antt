-- ===== src/Machine/Keeps.antt =====
-- What a procedure leaves as it was, whatever the environment answers and however it ends: a rule for
-- each combinator, for `search`.
use ultrasight.Common.{ℕ, zero, suc, ◌+◌, ℤ, Bool, true, false, ◌≡◌, refl, ◌∙◌, ◌∷◌, if◌then◌else◌}
use ultrasight.Machine.Calls.{Call}
use ultrasight.Machine.State.{Env, Machine}
use ultrasight.Machine.Monad.{
  Flow, next, done, fault, Proc, ◌>>=◌, ◌>>◌, pure, return, return_if, assert, when, fn, get,
  modify, ask, ask_out, emit, for_range, after, bind, returned,
}

pub record Ignores {ℓ} {X : Type ℓ} (φ : Machine → X) (c : Call) : Type ℓ where
  pub ignores : (s : Machine) → φ (record s { log = c ∷ s.log }) ≡ φ s

pub record Keeps {ℓ} {X : Type ℓ} (φ : Machine → X) {A : Type 0} (m : Proc A) : Type ℓ where
  pub keeps : (s : Machine) → φ (after (m s)) ≡ φ s

module _ {ℓ} {X : Type ℓ} (φ : Machine → X) where
  return_if-Keeps : (b : Bool) (r : ℤ) (s : Machine) → φ (after (return_if b r s)) ≡ φ s
  return_if-Keeps true r s = refl
  return_if-Keeps false r s = refl

  assert-Keeps : (b : Bool) (s : Machine) → φ (after (assert b s)) ≡ φ s
  assert-Keeps true s = refl
  assert-Keeps false s = refl

  returned-Keeps : (r : Flow (Unit {0})) {x : X} → φ (after r) ≡ x → φ (after (returned r)) ≡ x
  returned-Keeps (next _ t) e = e
  returned-Keeps (done r t) e = e
  returned-Keeps (fault t) e = e

module _ {ℓ} {X : Type ℓ} {φ : Machine → X} where
  bind-Keeps :
      {A B : Type 0} (r : Flow A) (f : A → Proc B) {x : X}
      → φ (after r) ≡ x
      → ((a : A) → Keeps φ (f a))
      → φ (after (bind r f)) ≡ x
  bind-Keeps (next a t) f e k = (k a).keeps t ∙ e
  bind-Keeps (done r t) f e k = e
  bind-Keeps (fault t) f e k = e

  pub Keeps->>= :
      {A B : Type 0} {m : Proc A} {f : A → Proc B}
      → Keeps φ m
      → ((a : A) → Keeps φ (f a))
      → Keeps φ (m >>= f)
  Keeps->>= {m} {f} h k = record { keeps = λ s. bind-Keeps (m s) f (h.keeps s) k }

  pub Keeps->> : {A B : Type 0} {m : Proc A} {k : Proc B} → Keeps φ m → Keeps φ k → Keeps φ (m >> k)
  Keeps->> {m} {k} h h' = record { keeps = λ s. bind-Keeps (m s) (λ _. k) (h.keeps s) (λ _. h') }

  pub Keeps-pure : {A : Type 0} {a : A} → Keeps φ (pure a)
  Keeps-pure = record { keeps = λ s. refl }

  pub Keeps-get : Keeps φ get
  Keeps-get = record { keeps = λ s. refl }

  pub Keeps-return : {r : ℤ} → Keeps φ (return r)
  Keeps-return = record { keeps = λ s. refl }

  pub Keeps-fault : {A : Type 0} → Keeps φ {A = A} fault
  Keeps-fault = record { keeps = λ s. refl }

  pub Keeps-return_if : (b : Bool) (r : ℤ) → Keeps φ (return_if b r)
  Keeps-return_if b r = record { keeps = return_if-Keeps φ b r }

  pub Keeps-assert : (b : Bool) → Keeps φ (assert b)
  Keeps-assert b = record { keeps = assert-Keeps φ b }

  when-Keeps :
      (b : Bool) (m : Proc (Unit {0})) → Keeps φ m → (s : Machine) → φ (after (when b m s)) ≡ φ s
  when-Keeps true m h s = h.keeps s
  when-Keeps false m h s = refl

  pub Keeps-when : (b : Bool) {m : Proc (Unit {0})} → Keeps φ m → Keeps φ (when b m)
  Keeps-when b {m} h = record { keeps = when-Keeps b m h }

  pub if-Keeps :
      {A : Type 0} (b : Bool) {m k : Proc A} → Keeps φ m → Keeps φ k → Keeps φ (if b then m else k)
  if-Keeps true h h' = h
  if-Keeps false h h' = h'

  pub Keeps-fn : {m : Proc (Unit {0})} → Keeps φ m → Keeps φ (fn m)
  Keeps-fn {m} h = record { keeps = λ s. returned-Keeps φ (m s) (h.keeps s) }

  pub Keeps-modify : {f : Machine → Machine} → ((s : Machine) → φ (f s) ≡ φ s) → Keeps φ (modify f)
  Keeps-modify h = record { keeps = h }

  pub Keeps-ask : (env : Env) {c : Call} → Ignores φ c → Keeps φ (ask env c)
  Keeps-ask env h = record { keeps = h.ignores }

  pub Keeps-emit : {c : Call} → Ignores φ c → Keeps φ (emit c)
  Keeps-emit h = record { keeps = h.ignores }

  pub Keeps-ask_out : (env : Env) {c : Call} → Ignores φ c → Keeps φ (ask_out env c)
  Keeps-ask_out env h = record { keeps = h.ignores }

  for_range-Keeps :
      (n i : ℕ) {body : ℕ → Proc (Unit {0})}
      → ((j : ℕ) → Keeps φ (body j))
      → Keeps φ (for_range n i body)
  unfolding for_range
  for_range-Keeps zero i h = record { keeps = λ s. refl }
  for_range-Keeps (suc n) i {body} h = record {
    keeps = λ s. bind-Keeps (body i s) _ ((h i).keeps s) (λ _. for_range-Keeps n (i + 1) h);
  }

  pub Keeps-for_range :
      (n i : ℕ) {body : ℕ → Proc (Unit {0})}
      → ((j : ℕ) → Keeps φ (body j))
      → Keeps φ (for_range n i body)
  Keeps-for_range n i h = for_range-Keeps n i h

pub ruleset keeping = (
  Keeps->>=, Keeps->>, Keeps-pure, Keeps-get, Keeps-return, Keeps-fault, Keeps-return_if,
  Keeps-assert, Keeps-when, if-Keeps, Keeps-fn, Keeps-modify, Keeps-ask, Keeps-emit, Keeps-ask_out,
  Keeps-for_range,
)
