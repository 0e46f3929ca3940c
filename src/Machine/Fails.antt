-- ===== src/Machine/Fails.antt =====
-- Procedures that leave their function only with -1: a rule for each combinator, for `search`.
use ultrasight.Common.{ℕ, zero, suc, ◌+◌, minus_one, Bool, true, false, ◌≡◌, refl}
use ultrasight.Machine.Calls.{Call}
use ultrasight.Machine.State.{Env, Machine}
use ultrasight.Machine.Monad.{
  Flow, next, done, fault, Proc, ◌>>=◌, ◌>>◌, return, return_if, when, get, modify, ask, emit,
  for_range, bind,
}

-- It leaves its function only with -1.
abbrev pub FailsWith : {A : Type 0} → Flow A → Type 0
FailsWith (next a t) = Unit {0}
FailsWith (done r t) = r ≡ minus_one
FailsWith (fault t) = Unit {0}

pub record Fails {A : Type 0} (m : Proc A) : Type 0 where
  pub fails : (s : Machine) → FailsWith (m s)

bind-FailsWith :
    {A B : Type 0} (r : Flow A) (f : A → Proc B)
    → FailsWith r
    → ((a : A) → Fails (f a))
    → FailsWith (bind r f)
bind-FailsWith (next a t) f e h = (h a).fails t
bind-FailsWith (done r t) f e h = e
bind-FailsWith (fault t) f e h = tt

pub Fails->>= :
    {A B : Type 0} {m : Proc A} {f : A → Proc B}
    → Fails m
    → ((a : A) → Fails (f a))
    → Fails (m >>= f)
Fails->>= {m} {f} h k = record { fails = λ s. bind-FailsWith (m s) f (h.fails s) k }

pub Fails->> : {A B : Type 0} {m : Proc A} {k : Proc B} → Fails m → Fails k → Fails (m >> k)
Fails->> {m} {k} h j = record { fails = λ s. bind-FailsWith (m s) (λ _. k) (h.fails s) (λ _. j) }

pub Fails-get : Fails get
Fails-get = record { fails = λ s. tt }

pub Fails-ask : (env : Env) (c : Call) → Fails (ask env c)
Fails-ask env c = record { fails = λ s. tt }

pub Fails-emit : (c : Call) → Fails (emit c)
Fails-emit c = record { fails = λ s. tt }

pub Fails-modify : (f : Machine → Machine) → Fails (modify f)
Fails-modify f = record { fails = λ s. tt }

pub Fails-return : Fails (return minus_one)
Fails-return = record { fails = λ s. refl }

return_if-FailsWith : (b : Bool) (s : Machine) → FailsWith (return_if b minus_one s)
return_if-FailsWith true s = refl
return_if-FailsWith false s = tt

pub Fails-return_if : (b : Bool) → Fails (return_if b minus_one)
Fails-return_if b = record { fails = return_if-FailsWith b }

when-FailsWith : (b : Bool) {m : Proc (Unit {0})} → Fails m → (s : Machine) → FailsWith (when b m s)
when-FailsWith true h s = h.fails s
when-FailsWith false h s = tt

pub Fails-when : (b : Bool) {m : Proc (Unit {0})} → Fails m → Fails (when b m)
Fails-when b h = record { fails = when-FailsWith b h }

pub for_range-Fails :
    (n i : ℕ) {body : ℕ → Proc (Unit {0})} → ((j : ℕ) → Fails (body j)) → Fails (for_range n i body)
unfolding for_range
for_range-Fails zero i h = record { fails = λ s. tt }
for_range-Fails (suc n) i {body} h = record {
  fails = λ s.
      bind-FailsWith (body i s) (λ _. for_range n (i + 1) body) ((h i).fails s)
        (λ _. for_range-Fails n (i + 1) h);
}

pub ruleset failing = (
  Fails->>=, Fails->>, Fails-get, Fails-ask, Fails-emit, Fails-modify, Fails-return,
  Fails-return_if, Fails-when,
)
