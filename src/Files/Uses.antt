-- ===== src/Files/Uses.antt =====
-- Procedures that start with some handles open and go on with others, and that leave their function with
-- none of them: a rule for each combinator, for `search`.
pub mod Handles
use ultrasight.Common.{
  ◌≡◌, refl, ap, ◌∙◌, ℕ, zero, suc, ◌+◌, ℤ, pos, negsuc, u64, is_neg, Bool, true, false, Bool-cases,
  inl, inr, some, List, [], ◌∷◌, ◌++◌, ◌==◌, if◌then◌else◌, arith,
}
use ultrasight.Machine.{
  Env, Machine, Call, Flow, next, done, fault, bind, returned, Proc, ◌>>=◌, ◌>>◌, pure, return,
  return_if, when, fn, get, modify, ask, ask_out, emit, for_range, open_file, close_file, fopen,
  fclose, opendir, closedir, after,
}
use ultrasight.Machine.Keeps.{Ignores, Keeps}
use ultrasight.Utils.Maps.Setup.{below_minus_one}
use ultrasight.Files.{Handle, file, stream, dir, file_of, opened, open_in, shut, same_handle}

-- Where a procedure ends: `ys` are open when it goes on, none when it leaves its function.
abbrev pub Open : Env → List Handle → List Handle → {A : Type 0} → Flow A → Type 0
Open env ys ks (next a t) = opened env t.log ≡ some (ys ++ ks)
Open env ys ks (done r t) = opened env t.log ≡ some ks
Open env ys ks (fault t) = Unit {0}

pub record Uses (env : Env) (xs ys : List Handle) {A : Type 0} (m : Proc A) : Type 0 where
  pub uses :
      (ks : List Handle) (s : Machine) → opened env s.log ≡ some (xs ++ ks) → Open env ys ks (m s)

module _ (env : Env) where
  return_if-Open :
      (b : Bool) (r : ℤ) (ks : List Handle) (s : Machine)
      → opened env s.log ≡ some ks
      → Open env [] ks (return_if b r s)
  return_if-Open true r ks s e = e
  return_if-Open false r ks s e = e

  fn-Open :
      (xs ks : List Handle) (f : Flow (Unit {0}))
      → Open env [] (xs ++ ks) f
      → Open env xs ks (returned f)
  fn-Open xs ks (next a t) h = h
  fn-Open xs ks (done r t) h = h
  fn-Open xs ks (fault t) h = tt

  kept :
      {A : Type 0} (ks : List Handle) (f : Flow A)
      → opened env (after f).log ≡ some ks
      → Open env [] ks f
  kept ks (next a t) e = e
  kept ks (done r t) e = e
  kept ks (fault t) e = tt

module _ {env : Env} where
  bind-Open :
      {A B : Type 0} {ys zs : List Handle} (f : Flow A) (k : A → Proc B) (ks : List Handle)
      → Open env ys ks f
      → ((a : A) → Uses env ys zs (k a))
      → Open env zs ks (bind f k)
  bind-Open (next a t) k ks h u = (u a).uses ks t h
  bind-Open (done r t) k ks h u = h
  bind-Open (fault t) k ks h u = tt

  pub Uses->>= :
      {A B : Type 0} {xs ys zs : List Handle} {m : Proc A} {f : A → Proc B}
      → Uses env xs ys m
      → ((a : A) → Uses env ys zs (f a))
      → Uses env xs zs (m >>= f)
  Uses->>= {m} {f} h u = record { uses = λ ks s e. bind-Open (m s) f ks (h.uses ks s e) u }

  pub Uses->> :
      {A B : Type 0} {xs ys zs : List Handle} {m : Proc A} {k : Proc B}
      → Uses env xs ys m
      → Uses env ys zs k
      → Uses env xs zs (m >> k)
  Uses->> {m} {k} h u = record {
    uses = λ ks s e. bind-Open (m s) (λ _. k) ks (h.uses ks s e) (λ _. u);
  }

  pub Uses-pure : {A : Type 0} {xs : List Handle} {a : A} → Uses env xs xs (pure a)
  Uses-pure = record { uses = λ ks s e. e }

  pub Uses-fault : {A : Type 0} {xs ys : List Handle} → Uses env xs ys {A = A} fault
  Uses-fault = record { uses = λ ks s e. tt }

  pub Uses-get : {xs : List Handle} → Uses env xs xs get
  Uses-get = record { uses = λ ks s e. e }

  pub Uses-modify :
      {xs : List Handle} {f : Machine → Machine}
      → ((s : Machine) → (f s).log ≡ s.log)
      → Uses env xs xs (modify f)
  Uses-modify h = record { uses = λ ks s e. ap (opened env) (h s) ∙ e }

  -- To leave the function, nothing may be open.
  pub Uses-return : {ys : List Handle} {r : ℤ} → Uses env [] ys (return r)
  Uses-return = record { uses = λ ks s e. e }

  pub Uses-return_if : (b : Bool) (r : ℤ) → Uses env [] [] (return_if b r)
  Uses-return_if b r = record { uses = return_if-Open env b r }

  when-Open :
      {xs : List Handle} (b : Bool) (m : Proc (Unit {0})) (ks : List Handle) (s : Machine)
      → Uses env xs xs m
      → opened env s.log ≡ some (xs ++ ks)
      → Open env xs ks (when b m s)
  when-Open true m ks s h e = h.uses ks s e
  when-Open false m ks s h e = e

  pub Uses-when :
      {xs : List Handle} (b : Bool) {m : Proc (Unit {0})}
      → Uses env xs xs m
      → Uses env xs xs (when b m)
  Uses-when b {m} h = record { uses = λ ks s e. when-Open b m ks s h e }

  pub if-Uses :
      {A : Type 0} {xs ys : List Handle} (b : Bool) {m k : Proc A}
      → Uses env xs ys m
      → Uses env xs ys k
      → Uses env xs ys (if b then m else k)
  if-Uses true h u = h
  if-Uses false h u = u

  -- A function that leaves nothing open may be called with anything open.
  pub Uses-fn : {xs : List Handle} {m : Proc (Unit {0})} → Uses env [] [] m → Uses env xs xs (fn m)
  Uses-fn {xs} {m} h = record { uses = λ ks s e. fn-Open env xs ks (m s) (h.uses (xs ++ ks) s e) }

  pub Uses-Keeps : {A : Type 0} {m : Proc A} → Keeps (open_in env) m → Uses env [] [] m
  Uses-Keeps {m} h = record { uses = λ ks s e. kept env ks (m s) (h.keeps s ∙ e) }

  -- A call that opens and closes nothing.
  pub Uses-ask :
      {xs : List Handle} {c : Call} → Ignores (open_in env) c → Uses env xs xs (ask env c)
  Uses-ask h = record { uses = λ ks s e. h.ignores s ∙ e }

  pub Uses-emit : {xs : List Handle} {c : Call} → Ignores (open_in env) c → Uses env xs xs (emit c)
  Uses-emit h = record { uses = λ ks s e. h.ignores s ∙ e }

  pub Uses-ask_out :
      {xs : List Handle} {c : Call} → Ignores (open_in env) c → Uses env xs xs (ask_out env c)
  Uses-ask_out h = record { uses = λ ks s e. h.ignores s ∙ e }

  for_range-Uses :
      (n i : ℕ) {body : ℕ → Proc (Unit {0})}
      → ((j : ℕ) → Uses env [] [] (body j))
      → Uses env [] [] (for_range n i body)
  unfolding for_range
  for_range-Uses zero i h = record { uses = λ ks s e. e }
  for_range-Uses (suc n) i {body} h = record {
    uses = λ ks s e.
        bind-Open (body i s) (λ _. for_range n (i + 1) body) ks ((h i).uses ks s e)
          (λ _. for_range-Uses n (i + 1) h);
  }

  pub Uses-for_range :
      (n i : ℕ) {body : ℕ → Proc (Unit {0})}
      → ((j : ℕ) → Uses env [] [] (body j))
      → Uses env [] [] (for_range n i body)
  Uses-for_range n i h = for_range-Uses n i h

module _ {env : Env} where
  -- The sequences as `search` takes them: a step keeps what is open, or closes the handle opened last.
  pub then_Uses :
      {A B : Type 0} {xs zs : List Handle} {m : Proc A} {f : A → Proc B}
      → Uses env xs xs m
      → ((a : A) → Uses env xs zs (f a))
      → Uses env xs zs (m >>= f)
  then_Uses h u = Uses->>= h u

  pub next_Uses :
      {A B : Type 0} {xs zs : List Handle} {m : Proc A} {k : Proc B}
      → Uses env xs xs m
      → Uses env xs zs k
      → Uses env xs zs (m >> k)
  next_Uses h u = Uses->> h u
