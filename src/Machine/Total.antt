-- ===== src/Machine/Total.antt =====
-- Procedures that do not fault, whatever is answered: a rule for each combinator, for `search`.
use ultrasight.Common.{ℕ, zero, suc, ◌+◌, ℤ, Bool, true, false, ◌≡◌, refl, some}
use ultrasight.Machine.Calls.{Call}
use ultrasight.Machine.State.{Env, Machine}
use ultrasight.Machine.Monad.{
  Flow, next, done, fault, Proc, Fn, ◌>>=◌, ◌>>◌, return, return_if, when, fn, get, ask, emit,
  for_range, value, bind, returned,
}

abbrev pub Ends : {A : Type 0} → Flow A → Type 0
Ends (next a t) = Unit {0}
Ends (done r t) = Unit {0}
Ends (fault t) = ⊥

pub record Total {A : Type 0} (m : Proc A) : Type 0 where
  pub ends : (s : Machine) → Ends (m s)

-- A function that ends has a value.
returned-value : (f : Flow (Unit {0})) → Ends f → (r : ℤ) × (value (returned f) ≡ some r)
returned-value (next a t) e = (_, refl)
returned-value (done r t) e = (r, refl)
returned-value (fault t) e = absurd e

-- A function that returns from the states with `Q`.
pub record Answers (Q : Machine → Type 0) (m : Fn) : Type 0 where
  pub answers : (s : Machine) → Q s → (r : ℤ) × (value (m s) ≡ some r)

pub Answers-fn : {Q : Machine → Type 0} {m : Proc (Unit {0})} → Total m → Answers Q (fn m)
Answers-fn {m} h = record { answers = λ s q. returned-value (m s) (h.ends s) }

-- A function that starts by reading the state.
pub Answers-get :
    {Q : Machine → Type 0} {f : Machine → Proc (Unit {0})}
    → ((s : Machine) → Q s → Total (f s))
    → Answers Q (fn (get >>= f))
Answers-get {f} h = record { answers = λ s q. returned-value (f s s) ((h s q).ends s) }

bind-Ends :
    {A B : Type 0} (f : Flow A) (k : A → Proc B)
    → Ends f
    → ((a : A) → Total (k a))
    → Ends (bind f k)
bind-Ends (next a t) k e h = (h a).ends t
bind-Ends (done r t) k e h = tt
bind-Ends (fault t) k e h = absurd e

pub Total->>= :
    {A B : Type 0} {m : Proc A} {f : A → Proc B}
    → Total m
    → ((a : A) → Total (f a))
    → Total (m >>= f)
Total->>= {m} {f} h k = record { ends = λ s. bind-Ends (m s) f (h.ends s) k }

pub Total->> : {A B : Type 0} {m : Proc A} {k : Proc B} → Total m → Total k → Total (m >> k)
Total->> {m} {k} h j = record { ends = λ s. bind-Ends (m s) (λ _. k) (h.ends s) (λ _. j) }

pub Total-get : Total get
Total-get = record { ends = λ s. tt }

pub Total-return : (r : ℤ) → Total (return r)
Total-return r = record { ends = λ s. tt }

return_if-Ends : (b : Bool) (r : ℤ) (s : Machine) → Ends (return_if b r s)
return_if-Ends true r s = tt
return_if-Ends false r s = tt

pub Total-return_if : (b : Bool) (r : ℤ) → Total (return_if b r)
Total-return_if b r = record { ends = return_if-Ends b r }

when-Ends : (b : Bool) (m : Proc (Unit {0})) → Total m → (s : Machine) → Ends (when b m s)
when-Ends true m h s = h.ends s
when-Ends false m h s = tt

pub Total-when : (b : Bool) {m : Proc (Unit {0})} → Total m → Total (when b m)
Total-when b {m} h = record { ends = when-Ends b m h }

pub Total-when_off : (b : Bool) (m : Proc (Unit {0})) → b ≡ false → Total (when b m)
Total-when_off true m e = cc
Total-when_off false m e = record { ends = λ s. tt }

pub Total-ask : (env : Env) (c : Call) → Total (ask env c)
Total-ask env c = record { ends = λ s. tt }

pub Total-emit : (c : Call) → Total (emit c)
Total-emit c = record { ends = λ s. tt }

for_range-Total :
    (n i : ℕ) {body : ℕ → Proc (Unit {0})} → ((j : ℕ) → Total (body j)) → Total (for_range n i body)
unfolding for_range
for_range-Total zero i h = record { ends = λ s. tt }
for_range-Total (suc n) i {body} h = record {
  ends = λ s.
      bind-Ends (body i s) (λ _. for_range n (i + 1) body) ((h i).ends s)
        (λ _. for_range-Total n (i + 1) h);
}

pub Total-for_range :
    (n i : ℕ) {body : ℕ → Proc (Unit {0})} → ((j : ℕ) → Total (body j)) → Total (for_range n i body)
Total-for_range n i h = for_range-Total n i h

pub ruleset totality = (
  Total->>=, Total->>, Total-get, Total-return, Total-return_if, Total-when, Total-ask, Total-emit,
  Total-for_range,
)
