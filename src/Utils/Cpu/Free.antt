-- ===== src/Utils/Cpu/Free.antt =====
-- `find_free_cpu`: the affinities that /proc lists, line by line.
use ultrasight.Common.{
  ℕ, zero, suc, ◌-◌, ◌%◌, ◌^◌, min, ℤ, pos, negsuc, minus_one, u64, Bool, true, false, not, ◌||◌,
  ◌&&◌, Option, none, some, List, [], ◌∷◌, ◌++◌, ltb, drop, get_or, codes, ◌==◌, if◌then◌else◌,
}
use ultrasight.Machine.{
  sysconf_nprocs, opendir, readdir, closedir, fopen, fclose, read_line, Env, Proc, Fn, fault, bind,
  ◌>>=◌, ◌>>◌, pure, return, return_if, fn, ask, ask_out, emit,
}
use ultrasight.Utils.Scan.{scan_decimal, starts_with, find_char, is_digit}
use ultrasight.Utils.Cpu.{first_outside, cpu_result}

abbrev pub max_cpus : ℕ
max_cpus = 4096

abbrev pub vm_size : List ℕ
vm_size = codes "VmSize:" ++ 0x09 ∷ []

abbrev pub cpus_allowed_list : List ℕ
cpus_allowed_list = codes "Cpus_allowed_list:" ++ 0x09 ∷ []

abbrev pub is_absent : Option (List ℕ) → Bool
is_absent none = true
is_absent (some s) = false

-- The number that follows the label, if it is below MAX_CPUS.
unfoldable pub allowed_cpu : List ℕ → Option ℕ
allowed_cpu line = elim (scan_decimal (drop 19 line)) [
  | none ↦ none
  | some (hval, rest) ↦
      let n = min hval (2 ^ 64 - 1) % 2 ^ 32 in if ltb n max_cpus then some n else none
]

-- A line that binds a task with a VmSize to one CPU: no range and no list.
unfoldable pub bound_cpu : Bool → List ℕ → Option ℕ
unfolding allowed_cpu
bound_cpu has_vmsize line =
    if starts_with cpus_allowed_list line
      && (is_absent (find_char 0x2d line) && (is_absent (find_char 0x2c line) && has_vmsize))
    then allowed_cpu line
    else none

-- while (fgets(...)): up to the line that binds the task, or the end. Without fuel left the model
-- faults, here and in the loops over the directories.
unfoldable pub scan_status : Env → ℕ → ℤ → Bool → List ℕ → Proc (List ℕ)
unfolding bound_cpu
scan_status env zero fp has_vmsize used s = fault s
scan_status env (suc fuel) fp has_vmsize used s = bind (ask_out env (read_line fp) s) λ (r, line).
    let seen = has_vmsize || starts_with vm_size line in
    let rest = scan_status env fuel fp seen used in
    if u64 r == 0
    then pure used
    else elim (bound_cpu seen line) [ none ↦ rest | some cpu ↦ pure (cpu ∷ used) ]

-- The first character of a directory entry is a digit.
abbrev pub is_number_entry : List ℕ → Bool
is_number_entry name = is_digit (get_or name 0 0)

-- One task: its status file, if it can be opened.
unfoldable pub scan_task : Env → ℕ → (proc_name task_name : List ℕ) → List ℕ → Proc (List ℕ)
unfolding scan_status
scan_task env fuel proc_name task_name used =
    if not (is_number_entry task_name) then pure used else do
      fp ←
          ask env
            (fopen (codes "/proc/" ++ proc_name ++ codes "/task/" ++ task_name ++ codes "/status"))
      if u64 fp == 0
          then pure used
          else do found ← scan_status env fuel fp false used; emit (fclose fp); pure found

-- while ((task_entry = readdir(task_dir)))
unfoldable pub scan_tasks : Env → (lines fuel : ℕ) → List ℕ → ℤ → List ℕ → Proc (List ℕ)
unfolding scan_task
scan_tasks env lines zero proc_name task_dir used s = fault s
scan_tasks env lines (suc fuel) proc_name task_dir used s =
    bind (ask_out env (readdir task_dir) s) λ (entry, name).
      let rest = λ (u : List ℕ). scan_tasks env lines fuel proc_name task_dir u in
      if u64 entry == 0 then pure used else scan_task env lines proc_name name used >>= rest

-- One process: its tasks, if the directory can be opened.
unfoldable pub scan_process : Env → (lines fuel : ℕ) → List ℕ → List ℕ → Proc (List ℕ)
unfolding scan_tasks
scan_process env lines fuel proc_name used =
    if not (is_number_entry proc_name) then pure used else do
      task_dir ← ask env (opendir (codes "/proc/" ++ proc_name ++ codes "/task"))
      if u64 task_dir == 0 then pure used else do
        found ← scan_tasks env lines fuel proc_name task_dir used
        emit (closedir task_dir)
        pure found

-- while ((proc_entry = readdir(proc_dir)))
unfoldable pub scan_processes : Env → (lines tasks fuel : ℕ) → ℤ → List ℕ → Proc (List ℕ)
unfolding scan_process
scan_processes env lines tasks zero proc_dir used s = fault s
scan_processes env lines tasks (suc fuel) proc_dir used s =
    bind (ask_out env (readdir proc_dir) s) λ (entry, name).
      let rest = λ (u : List ℕ). scan_processes env lines tasks fuel proc_dir u in
      if u64 entry == 0 then pure used else scan_process env lines tasks name used >>= rest

-- nprocs < 2, as ints
abbrev pub single_cpu : ℤ → Bool
single_cpu (pos n) = ltb n 2
single_cpu (negsuc n) = true

unfoldable pub find_free_cpu : Env → (fuel : ℕ) → Fn
unfolding scan_processes first_outside
find_free_cpu env fuel = fn do
  nprocs ← ask env sysconf_nprocs
  return_if (single_cpu nprocs) (pos 0)
  proc_dir ← ask env (opendir (codes "/proc"))
  return_if (u64 proc_dir == 0) minus_one
  used ← scan_processes env fuel fuel fuel proc_dir []
  emit (closedir proc_dir)
  return (cpu_result (first_outside (u64 nprocs) 0 used))
