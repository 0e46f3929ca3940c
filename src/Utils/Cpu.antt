-- ===== src/Utils/Cpu.antt =====
-- src/utils.c: `alloc_cpu_set`, `set_cpu_affinity`, `find_free_cpu`, `set_core_cpus` and
-- `get_preferred_cpu`.
pub mod Free
pub mod Preferred
pub mod Least
use ultrasight.Common.{
  ℕ, zero, suc, ◌+◌, ◌-◌, ◌*◌, ◌/◌, ◌%◌, ◌^◌, ℤ, pos, minus_one, u64, is_neg, is_nonzero, Bool,
  true, false, not, ◌||◌, ◌&&◌, Option, none, some, List, [], ◌∷◌, ltb, ◌==◌, if◌then◌else◌,
}
use ultrasight.Machine.{
  get_nprocs, cpu_alloc, cpu_free, sched_setaffinity, Env, Machine, Proc, Fn, ◌>>=◌, ◌>>◌, pure,
  return, return_if, when, fn, get, modify, ask, ask_out, emit,
}

abbrev pub member : ℕ → List ℕ → Bool
member c [] = false
member c (d ∷ ds) = c == d || member c ds

-- The first of the `n` CPUs from `i` on that is not in the set.
unfoldable pub first_outside : (n i : ℕ) → List ℕ → Option ℕ
first_outside zero i used = none
first_outside (suc n) i used =
    let rest = first_outside n (i + 1) used in if member i used then rest else some i

-- -1 where there is none.
abbrev pub cpu_result : Option ℕ → ℤ
cpu_result none = minus_one
cpu_result (some i) = pos i

-- A CPU set: how many CPUs it has room for, and those in it. CPU_ALLOC_SIZE rounds up to words.
pub record CpuSet : Type 0 where
  pub room : ℕ
  pub cpus : List ℕ

-- `alloc_cpu_set`, on targets that are not NULL; `none` if CPU_ALLOC fails.
unfoldable pub alloc_cpu_set : Env → Proc (Option CpuSet)
alloc_cpu_set env = do
  nprocs ← ask env get_nprocs
  p ← ask env (cpu_alloc (u64 nprocs))
  let set : CpuSet = record { room = (u64 nprocs + 63) / 64 * 64; cpus = [] }
  pure (if u64 p == 0 then none else some set)

-- CPU_SET_S: a CPU outside the set's room is passed over.
unfoldable pub cpu_set_s : ℤ → CpuSet → CpuSet
cpu_set_s cpu set = if ltb (u64 cpu) set.room then record set { cpus = u64 cpu ∷ set.cpus } else set

unfoldable pub set_cpu_affinity : Env → (cpu pid : ℤ) → Fn
unfolding alloc_cpu_set cpu_set_s
set_cpu_affinity env cpu pid = do
  set ← alloc_cpu_set env
  elim set [
    | none ↦ pure minus_one
    | some cpu_set ↦ do
      rc ← ask env (sched_setaffinity pid (cpu_set_s cpu cpu_set).cpus)
      emit cpu_free
      pure (if is_neg rc then minus_one else pos 0)
  ]
