-- ===== src/Files/Cpu.antt =====
-- The searches for a CPU close the directories and files of /proc and sysfs that they open.
use ultrasight.Common.{
  refl, ℕ, zero, suc, ◌+◌, ℤ, pos, minus_one, u64, is_neg, Bool, true, false, ◌||◌, Option, none,
  some, List, ◌∷◌, ◌==◌, leb, if◌then◌else◌,
}
use ultrasight.Machine.{
  Env, Proc, pure, ask, emit, sched_setaffinity, sched_getaffinity, get_nprocs, cpu_free, read_line,
  readdir, read_token, ◌>>=◌, ◌>>◌,
}
use ultrasight.Files.{Handle}
use ultrasight.Files.Uses.Handles.{using}
use ultrasight.Files.Uses.{
  Uses, then_Uses, next_Uses, Uses-fn, Uses-ask, Uses-emit, Uses-return, Uses-return_if, Uses-when,
  Uses-fault, Uses-ask_out, if-Uses, Uses-pure,
}
use ultrasight.Files.Utils.{quiet}
use ultrasight.Utils.Scan.{starts_with}
use ultrasight.Utils.Cpu.{member, CpuSet, alloc_cpu_set, cpu_set_s, set_cpu_affinity}
use ultrasight.Utils.Cpu.Free.{
  scan_status, bound_cpu, vm_size, scan_task, scan_tasks, scan_process, scan_processes,
  find_free_cpu,
}
use ultrasight.Utils.Cpu.Preferred.{
  read_cpu_list, set_core_cpus, core_cpus_of, get_preferred_cpu, strtol, strip_delimiter, long_max,
  preferred,
}

module _ (env : Env) where
  option-Uses :
      {A B : Type 0} {xs ys : List Handle} (o : Option B) {m : Proc A} {f : B → Proc A}
      → Uses env xs ys m
      → ((b : B) → Uses env xs ys (f b))
      → Uses env xs ys (elim o [ none ↦ m | some b ↦ f b ])
  option-Uses none h u = h
  option-Uses (some b) h u = u b

  scan_status-Uses :
      {xs : List Handle} (fuel : ℕ) (fp : ℤ) (seen : Bool) (used : List ℕ)
      → Uses env xs xs (scan_status env fuel fp seen used)
  unfolding scan_status
  scan_status-Uses zero fp seen used = Uses-fault
  scan_status-Uses (suc fuel) fp seen used =
      then_Uses (Uses-ask_out (quiet env (read_line fp) refl)) (λ (r, line).
        if-Uses (u64 r == 0) (Uses-pure {a = used}) (
          option-Uses (bound_cpu (seen || starts_with vm_size line) line)
            (scan_status-Uses fuel fp (seen || starts_with vm_size line) used)
            (λ cpu. Uses-pure {a = cpu ∷ used})))

  scan_task-Uses :
      {xs : List Handle} (fuel : ℕ) (proc_name task_name used : List ℕ)
      → Uses env xs xs (scan_task env fuel proc_name task_name used)
  unfolding scan_task
  scan_task-Uses fuel proc_name task_name used = search (using, quiet, scan_status-Uses) depth 30

  scan_tasks-Uses :
      {xs : List Handle} (lines fuel : ℕ) (proc_name : List ℕ) (task_dir : ℤ) (used : List ℕ)
      → Uses env xs xs (scan_tasks env lines fuel proc_name task_dir used)
  unfolding scan_tasks
  scan_tasks-Uses lines zero proc_name task_dir used = Uses-fault
  scan_tasks-Uses lines (suc fuel) proc_name task_dir used =
      then_Uses (Uses-ask_out (quiet env (readdir task_dir) refl)) (λ (entry, name).
        if-Uses (u64 entry == 0) (Uses-pure {a = used}) (
          then_Uses (scan_task-Uses lines proc_name name used)
            (λ u. scan_tasks-Uses lines fuel proc_name task_dir u)))

  scan_process-Uses :
      {xs : List Handle} (lines fuel : ℕ) (proc_name used : List ℕ)
      → Uses env xs xs (scan_process env lines fuel proc_name used)
  unfolding scan_process
  scan_process-Uses lines fuel proc_name used = search (using, quiet, scan_tasks-Uses) depth 30

  scan_processes-Uses :
      {xs : List Handle} (lines tasks fuel : ℕ) (proc_dir : ℤ) (used : List ℕ)
      → Uses env xs xs (scan_processes env lines tasks fuel proc_dir used)
  unfolding scan_processes
  scan_processes-Uses lines tasks zero proc_dir used = Uses-fault
  scan_processes-Uses lines tasks (suc fuel) proc_dir used =
      then_Uses (Uses-ask_out (quiet env (readdir proc_dir) refl)) (λ (entry, name).
        if-Uses (u64 entry == 0) (Uses-pure {a = used}) (
          then_Uses (scan_process-Uses lines tasks name used)
            (λ u. scan_processes-Uses lines tasks fuel proc_dir u)))

  pub find_free_cpu-Uses : {xs : List Handle} (fuel : ℕ) → Uses env xs xs (find_free_cpu env fuel)
  unfolding find_free_cpu
  find_free_cpu-Uses fuel = search (using, quiet, scan_processes-Uses) depth 30

  read_cpu_list-Uses :
      {xs : List Handle} (fuel : ℕ) (fp : ℤ) (set : CpuSet)
      → Uses env xs xs (read_cpu_list env fuel fp set)
  unfolding read_cpu_list
  read_cpu_list-Uses zero fp set = Uses-fault
  read_cpu_list-Uses (suc fuel) fp set =
      then_Uses (Uses-ask_out (quiet env (read_token fp) refl)) (λ (n, token).
        if-Uses (is_neg n) (Uses-pure {a = some set}) (
          if-Uses (leb long_max (strtol (strip_delimiter token))) (Uses-pure {a = none})
            (read_cpu_list-Uses fuel fp (cpu_set_s (pos (strtol (strip_delimiter token))) set))))

  set_core_cpus-Uses :
      {xs : List Handle} (fuel cpu : ℕ) (set : CpuSet)
      → Uses env xs xs (set_core_cpus env fuel cpu set)
  unfolding set_core_cpus
  set_core_cpus-Uses fuel cpu set = search (using, quiet, read_cpu_list-Uses) depth 30

  core_cpus_of-Uses :
      {xs : List Handle} (fuel n i : ℕ) (cpus : List ℕ) (set : CpuSet)
      → Uses env xs xs (core_cpus_of env fuel n i cpus set)
  unfolding core_cpus_of
  core_cpus_of-Uses fuel zero i cpus set = record { uses = λ ks s e. e }
  core_cpus_of-Uses fuel (suc n) i cpus set = record {
    uses = λ ks s e.
        (if-Uses (member i cpus)
            (then_Uses (set_core_cpus-Uses fuel i set) (λ found.
              option-Uses found (Uses-pure {a = none})
                (λ set'. core_cpus_of-Uses fuel n (i + 1) cpus set')))
            (core_cpus_of-Uses fuel n (i + 1) cpus set)).uses
          ks s e;
  }

  alloc_cpu_set-Uses : {xs : List Handle} → Uses env xs xs (alloc_cpu_set env)
  unfolding alloc_cpu_set
  alloc_cpu_set-Uses = search (using, quiet) depth 20

  -- What `set_cpu_affinity` and `get_preferred_cpu` do with a set, where it was allocated.
  bind_set-Uses :
      {xs : List Handle} (cpu pid : ℤ) (set : Option CpuSet)
      → Uses env xs xs (elim set [
        | none ↦ pure minus_one
        | some cpu_set ↦ do
          rc ← ask env (sched_setaffinity pid (cpu_set_s cpu cpu_set).cpus)
          emit cpu_free
          pure (if is_neg rc then minus_one else pos 0)
      ])
  bind_set-Uses cpu pid none = Uses-pure
  bind_set-Uses cpu pid (some set) = search (using, quiet) depth 20

  pub set_cpu_affinity-Uses :
      {xs : List Handle} (cpu pid : ℤ) → Uses env xs xs (set_cpu_affinity env cpu pid)
  unfolding set_cpu_affinity
  set_cpu_affinity-Uses cpu pid = then_Uses alloc_cpu_set-Uses (bind_set-Uses cpu pid)

  core_set-Uses :
      {xs : List Handle} (fuel nprocs : ℕ) (affinity : List ℕ) (set : Option CpuSet)
      → Uses env xs xs (elim set [
        | none ↦ pure minus_one
        | some cores ↦ do
          found ← core_cpus_of env fuel nprocs 0 affinity cores
          emit cpu_free
          pure (preferred nprocs found)
      ])
  core_set-Uses fuel nprocs affinity none = Uses-pure
  core_set-Uses fuel nprocs affinity (some set) = search (using, quiet, core_cpus_of-Uses) depth 20

  pub get_preferred_cpu-Uses :
      {xs : List Handle} (fuel : ℕ) (pid : ℤ) → Uses env xs xs (get_preferred_cpu env fuel pid)
  unfolding get_preferred_cpu
  get_preferred_cpu-Uses fuel pid = Uses-fn (
      then_Uses alloc_cpu_set-Uses (λ set.
        next_Uses (Uses-return_if (elim set [ none ↦ true | some _ ↦ false ]) minus_one) (
          then_Uses (Uses-ask_out (quiet env (sched_getaffinity pid) refl)) (λ (rc, affinity).
            next_Uses
              (Uses-when (is_neg rc)
                (next_Uses (Uses-emit (quiet env cpu_free refl)) (Uses-return {r = minus_one})))
              (then_Uses (Uses-ask (quiet env get_nprocs refl)) (λ nprocs.
                then_Uses alloc_cpu_set-Uses (λ cores.
                  then_Uses (core_set-Uses fuel (u64 nprocs) affinity cores) (λ ret.
                    next_Uses (Uses-emit (quiet env cpu_free refl)) (Uses-return {r = ret})))))))))
