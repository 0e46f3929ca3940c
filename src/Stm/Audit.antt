-- ===== src/Stm/Audit.antt =====
-- The mappings that a log of calls leaves, and what the STM's functions leave of theirs.
use ultrasight.Common.{
  ℕ, ◌≡◌, refl, inl, inr, ℤ, u64, is_neg, Bool, true, false, ◌&&◌, Bool-cases, List, [], ◌∷◌, ◌==◌,
  if◌then◌else◌, arith,
}
use ultrasight.Machine.{Env, Machine, Call, open_file, mmap_file, munmap, ◌>>=◌, after}
use ultrasight.Buffer.Memory.{map_failed}
use ultrasight.Stm.{
  preload_stm_region, unload_stm_region, setup_stm_region, clean_stm_region, dev_mem, stm_map_size,
  stm_stimulus_base, no_pointer,
}

-- Without the first that has this address and size.
abbrev pub without : ℕ → ℕ → List (ℕ × ℕ) → List (ℕ × ℕ)
without a n [] = []
without a n ((b, m) ∷ bs) = if a == b && n == m then bs else (b, m) ∷ without a n bs

-- The files that are mapped, by address and size, the newest first. A mapping goes with an munmap of
-- its address and its whole size.
abbrev pub mapped : Env → List Call → List (ℕ × ℕ)
mapped env [] = []
mapped env (mmap_file size fd offset ∷ l) =
    let p = u64 (env.ret l (mmap_file size fd offset)) in
    if p == map_failed then mapped env l else (p, size) ∷ mapped env l
mapped env (munmap addr size ∷ l) = without addr size (mapped env l)
mapped env (_ ∷ l) = mapped env l

-- mmap(2) maps nothing at NULL that it was not asked to.
abbrev pub NeverNull : Env → Type 0
NeverNull env =
    (l : List Call) (size : ℕ) (fd : ℤ) (offset : ℕ)
    → u64 (env.ret l (mmap_file size fd offset)) == 0 ≡ false

without_refl : (a n : ℕ) (bs : List (ℕ × ℕ)) → without a n ((a, n) ∷ bs) ≡ bs
without_refl a n bs = ground arith

-- The destructor of the preload library, run by the thread that ran its constructor, unmaps what that
-- mapped, whatever failed; run by another thread, it unmaps nothing.
pub unload-preload :
    (env : Env) (thread other : ℕ) (s : Machine)
    → NeverNull env
    → let loaded = after (preload_stm_region env thread no_pointer s) in
      let unloaded =
        after ((preload_stm_region env thread no_pointer >>= unload_stm_region other) s) in
      mapped env unloaded.log
      ≡ (if other == thread then mapped env s.log else mapped env loaded.log)
unfolding preload_stm_region unload_stm_region
unload-preload env thread other s laws = elim (Bool-cases (is_neg fd)) [
  | inl closed ↦ rw closed (if_same (other == thread))
  | inr found ↦ elim (Bool-cases (u64 p == map_failed)) [
    | inl failed ↦ rw (found, failed, failed) (if_same (other == thread))
    | inr ok ↦ elim (Bool-cases (other == thread)) [
      | inl same ↦
          rw (found, ok, same, laws opened stm_map_size fd stm_stimulus_base, ok)
            (without_refl (u64 p) stm_map_size (mapped env s.log))
      | inr apart ↦ rw (found, ok, apart, ok) refl
    ]
  ]
]
  where
    fd : ℤ
    fd = env.ret s.log (open_file dev_mem)

    opened : List Call
    opened = open_file dev_mem ∷ s.log

    p : ℤ
    p = env.ret opened (mmap_file stm_map_size fd stm_stimulus_base)

    if_same : (b : Bool) → mapped env s.log ≡ (if b then mapped env s.log else mapped env s.log)
    if_same true = refl
    if_same false = refl

-- Where `setup_stm_region` succeeds, and the caller's pointer is not by chance the new mapping's address:
-- the mapping is still there after `clean_stm_region` with the caller's pointer, which setup never sets.
pub clean-setup :
    (env : Env) (map_base : ℕ) (s : Machine)
    → let fd = env.ret s.log (open_file dev_mem) in
      let p =
        u64 (env.ret (open_file dev_mem ∷ s.log) (mmap_file stm_map_size fd stm_stimulus_base)) in
      is_neg fd ≡ false
      → p == map_failed ≡ false
      → map_base == p ≡ false
      → mapped env
          (after ((setup_stm_region env >>= λ (ret, fd). clean_stm_region fd map_base) s)).log
        ≡ (p, stm_map_size) ∷ without map_base stm_map_size (mapped env s.log)
unfolding setup_stm_region clean_stm_region
clean-setup env map_base s found ok other = rw (found, ok, ok, other) refl
