-- ===== src/Machine/Monad.antt =====
-- The monad of the model: a step takes the state and goes on with a value, or leaves the function
-- with what it returns, or faults (a failed assertion, or an access through NULL).
use ultrasight.Common.{ℕ, zero, suc, ◌+◌, ℤ, pos, Bool, true, false, List, ◌∷◌, Option, none, some}
use ultrasight.Machine.Calls.{Call}
use ultrasight.Machine.State.{Env, Machine}

pub data Flow {ℓ} (A : Type ℓ) : Type ℓ where
  next : A → Machine → Flow A
  done : ℤ → Machine → Flow A
  fault : Machine → Flow A

abbrev pub Proc : Type 0 → Type 0
Proc A = Machine → Flow A

-- A C function of type int.
abbrev pub Fn : Type 0
Fn = Proc ℤ

abbrev pub bind : {A B : Type 0} → Flow A → (A → Proc B) → Flow B
bind (next a t) f = f a t
bind (done r t) f = done r t
bind (fault t) f = fault t

infixl 5 ◌>>=◌ ◌>>◌
abbrev pub ◌>>=◌ : {A B : Type 0} → Proc A → (A → Proc B) → Proc B
(m >>= f) s = bind (m s) f

abbrev pub ◌>>◌ : {A B : Type 0} → Proc A → Proc B → Proc B
(m >> k) s = bind (m s) (λ _. k)

abbrev pub pure : {A : Type 0} → A → Proc A
pure a s = next a s

-- `return r`, and a `goto` to the function's exit.
abbrev pub return : ℤ → Proc (Unit {0})
return r s = done r s

abbrev pub return_if : Bool → ℤ → Proc (Unit {0})
return_if true r s = done r s
return_if false r s = next tt s

-- assert(b)
abbrev pub assert : Bool → Proc (Unit {0})
assert true s = next tt s
assert false s = fault s

abbrev pub when : Bool → Proc (Unit {0}) → Proc (Unit {0})
when true m s = m s
when false m s = next tt s

abbrev pub returned : Flow (Unit {0}) → Flow ℤ
returned (next _ t) = next (pos 0) t
returned (done r t) = next r t
returned (fault t) = fault t

-- A function's body, seen from its caller: what it returned.
abbrev pub fn : Proc (Unit {0}) → Fn
fn m s = returned (m s)

abbrev pub get : Proc Machine
get s = next s s

abbrev pub modify : (Machine → Machine) → Proc (Unit {0})
modify f s = next tt (f s)

-- A call of outside code: it is logged, and answered by the environment.
abbrev pub ask : Env → Call → Proc ℤ
ask env c s = next (env.ret s.log c) (record s { log = c ∷ s.log })

abbrev pub emit : Call → Proc (Unit {0})
emit c s = next tt (record s { log = c ∷ s.log })

abbrev pub ask_out : Env → Call → Proc (ℤ × List ℕ)
ask_out env c s = next (env.ret s.log c, env.out s.log c) (record s { log = c ∷ s.log })

-- for (i = start; i < start + n; i++) body
unfoldable pub for_range : (n i : ℕ) → (ℕ → Proc (Unit {0})) → Proc (Unit {0})
for_range zero i body s = next tt s
for_range (suc n) i body s = let rest = for_range n (i + 1) body in bind (body i s) (λ _. rest)

-- What a function returned, if it did, and the state after it. A `done` is inside a body: `fn` turns it
-- into the value that the caller goes on with.
abbrev pub value : Flow ℤ → Option ℤ
value (next r t) = some r
value (done r t) = none
value (fault t) = none

abbrev pub after {ℓ} : {A : Type ℓ} → Flow A → Machine
after (next a t) = t
after (done r t) = t
after (fault t) = t
