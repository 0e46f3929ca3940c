-- ===== src/Files/Uses/Handles.antt =====
-- Procedures that open and close handles: a rule for each open and close, and the rules as one set.
use ultrasight.Common.{
  ◌≡◌, refl, ℕ, zero, suc, ℤ, pos, negsuc, u64, is_neg, true, Bool-cases, inl, inr, some, List, [],
  ◌∷◌, ◌++◌, ◌==◌, if◌then◌else◌, arith,
}
use ultrasight.Machine.{
  Env, Proc, ◌>>=◌, ◌>>◌, return_if, ask, emit, open_file, close_file, fopen, fclose, opendir,
  closedir,
}
use ultrasight.Utils.Maps.Setup.{below_minus_one}
use ultrasight.Files.{Handle, file, stream, dir, file_of, shut, same_handle}
use ultrasight.Files.Uses.{
  Uses, Uses->>, then_Uses, next_Uses, Uses-pure, Uses-get, Uses-modify, Uses-return,
  Uses-return_if, Uses-when, if-Uses, Uses-fn, Uses-ask, Uses-emit, Uses-ask_out, Uses-for_range,
}

same_self : (h : Handle) → same_handle h h ≡ true
same_self (file a) = ground arith
same_self (stream a) = ground arith
same_self (dir a) = ground arith

shut_self : (h : Handle) (ks : List Handle) → shut h (h ∷ ks) ≡ some ks
shut_self h ks = rw (same_self h) refl

module _ {env : Env} where
  -- An open file, if it was opened: the function may be left where it was not.
  pub Uses-open :
      {A : Type 0} {ys : List Handle} (path : List ℕ) {f : ℤ → Proc A}
      → ((fd : ℤ) → Uses env (file_of fd) ys (f fd))
      → Uses env [] ys (ask env (open_file path) >>= f)
  Uses-open path u = record {
    uses = λ ks s e.
        (u (env.ret s.log (open_file path))).uses ks (record s { log = open_file path ∷ s.log })
          (rw e refl);
  }

  pub Uses-unless_neg : (fd r : ℤ) → Uses env (file_of fd) (file_of fd) (return_if (is_neg fd) r)
  Uses-unless_neg (pos n) r = record { uses = λ ks s e. e }
  Uses-unless_neg (negsuc n) r = record { uses = λ ks s e. e }

  pub Uses-unless_below :
      (fd r : ℤ) → Uses env (file_of fd) (file_of fd) (return_if (below_minus_one fd) r)
  Uses-unless_below (pos n) r = record { uses = λ ks s e. e }
  Uses-unless_below (negsuc zero) r = record { uses = λ ks s e. e }
  Uses-unless_below (negsuc (suc n)) r = record { uses = λ ks s e. e }

  pub Uses-close : (fd : ℤ) → Uses env (file_of fd) [] (emit (close_file fd))
  Uses-close (pos n) = record { uses = λ ks s e. rw e (shut_self (file (pos n)) ks) }
  Uses-close (negsuc n) = record { uses = λ ks s e. rw e refl }

  -- An open that is tested: the function is left where it failed, or goes on with the handle.
  pub Uses-fopen_return :
      {A : Type 0} {ys : List Handle} (path : List ℕ) (r : ℤ) {k : ℤ → Proc A}
      → ((fp : ℤ) → Uses env (stream fp ∷ []) ys (k fp))
      → Uses env [] ys (ask env (fopen path) >>= λ fp. return_if (u64 fp == 0) r >> k fp)
  Uses-fopen_return {ys} path r {k} u = record {
    uses = λ ks s e.
        let fp = env.ret s.log (fopen path) in
        elim (Bool-cases (u64 fp == 0)) [
          | inl failed ↦ rw (failed, e, failed) refl
          | inr found ↦
              rw found ((u fp).uses ks (record s { log = fopen path ∷ s.log }) (rw (e, found) refl))
        ];
  }

  pub Uses-opendir_return :
      {A : Type 0} {ys : List Handle} (path : List ℕ) (r : ℤ) {k : ℤ → Proc A}
      → ((dp : ℤ) → Uses env (dir dp ∷ []) ys (k dp))
      → Uses env [] ys (ask env (opendir path) >>= λ dp. return_if (u64 dp == 0) r >> k dp)
  Uses-opendir_return {ys} path r {k} u = record {
    uses = λ ks s e.
        let dp = env.ret s.log (opendir path) in
        elim (Bool-cases (u64 dp == 0)) [
          | inl failed ↦ rw (failed, e, failed) refl
          | inr found ↦
              rw found
                ((u dp).uses ks (record s { log = opendir path ∷ s.log }) (rw (e, found) refl))
        ];
  }

  -- An open that is passed over where it failed.
  pub Uses-fopen_if :
      {A : Type 0} {xs ys : List Handle} (path : List ℕ) {m : Proc A} {k : ℤ → Proc A}
      → Uses env xs ys m
      → ((fp : ℤ) → Uses env (stream fp ∷ xs) ys (k fp))
      → Uses env xs ys (ask env (fopen path) >>= λ fp. if u64 fp == 0 then m else k fp)
  Uses-fopen_if {xs} {ys} path {m} {k} h u = record {
    uses = λ ks s e.
        let fp = env.ret s.log (fopen path) in
        elim (Bool-cases (u64 fp == 0)) [
          | inl failed ↦
              rw failed (h.uses ks (record s { log = fopen path ∷ s.log }) (rw (e, failed) refl))
          | inr found ↦
              rw found ((u fp).uses ks (record s { log = fopen path ∷ s.log }) (rw (e, found) refl))
        ];
  }

  pub Uses-opendir_if :
      {A : Type 0} {xs ys : List Handle} (path : List ℕ) {m : Proc A} {k : ℤ → Proc A}
      → Uses env xs ys m
      → ((dp : ℤ) → Uses env (dir dp ∷ xs) ys (k dp))
      → Uses env xs ys (ask env (opendir path) >>= λ dp. if u64 dp == 0 then m else k dp)
  Uses-opendir_if {xs} {ys} path {m} {k} h u = record {
    uses = λ ks s e.
        let dp = env.ret s.log (opendir path) in
        elim (Bool-cases (u64 dp == 0)) [
          | inl failed ↦
              rw failed (h.uses ks (record s { log = opendir path ∷ s.log }) (rw (e, failed) refl))
          | inr found ↦
              rw found
                ((u dp).uses ks (record s { log = opendir path ∷ s.log }) (rw (e, found) refl))
        ];
  }

  pub Uses-fclose : {xs : List Handle} {fp : ℤ} → Uses env (stream fp ∷ xs) xs (emit (fclose fp))
  Uses-fclose {xs} {fp} = record { uses = λ ks s e. rw e (shut_self (stream fp) (xs ++ ks)) }

  pub Uses-closedir : {xs : List Handle} {dp : ℤ} → Uses env (dir dp ∷ xs) xs (emit (closedir dp))
  Uses-closedir {xs} {dp} = record { uses = λ ks s e. rw e (shut_self (dir dp) (xs ++ ks)) }

  pub close_Uses :
      {A : Type 0} {zs : List Handle} (fd : ℤ) {k : Proc A}
      → Uses env [] zs k
      → Uses env (file_of fd) zs (emit (close_file fd) >> k)
  close_Uses fd u = Uses->> (Uses-close fd) u

  pub fclose_Uses :
      {A : Type 0} {xs zs : List Handle} {fp : ℤ} {k : Proc A}
      → Uses env xs zs k
      → Uses env (stream fp ∷ xs) zs (emit (fclose fp) >> k)
  fclose_Uses u = Uses->> Uses-fclose u

  pub closedir_Uses :
      {A : Type 0} {xs zs : List Handle} {dp : ℤ} {k : Proc A}
      → Uses env xs zs k
      → Uses env (dir dp ∷ xs) zs (emit (closedir dp) >> k)
  closedir_Uses u = Uses->> Uses-closedir u

pub ruleset using = (
  Uses-open, Uses-unless_neg, Uses-unless_below, Uses-fopen_return, Uses-opendir_return,
  Uses-fopen_if, Uses-opendir_if, close_Uses, fclose_Uses, closedir_Uses, then_Uses, next_Uses,
  Uses-pure, Uses-get, Uses-modify, Uses-return, Uses-return_if, Uses-when, if-Uses, Uses-fn,
  Uses-ask, Uses-emit, Uses-ask_out, Uses-for_range, Uses-close, Uses-fclose, Uses-closedir,
)
