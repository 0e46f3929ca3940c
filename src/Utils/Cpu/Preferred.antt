-- ===== src/Utils/Cpu/Preferred.antt =====
-- `set_core_cpus` and `get_preferred_cpu`.
use ultrasight.Common.{
  ℕ, zero, suc, ◌+◌, ◌-◌, ◌^◌, ℤ, pos, minus_one, u64, is_neg, true, false, not, ◌&&◌, Option, none,
  some, List, ◌++◌, ltb, leb, length, take, get_or, codes, ◌==◌, if◌then◌else◌,
}
use ultrasight.Machine.{
  get_nprocs, cpu_free, sched_getaffinity, fopen, fclose, read_token, Env, Proc, Fn, fault, bind,
  ◌>>=◌, ◌>>◌, pure, return, return_if, when, fn, ask, ask_out, emit,
}
use ultrasight.Utils.Scan.{skip_spaces, scan_digits, skip_hex_prefix, print_int}
use ultrasight.Utils.Cpu.{CpuSet, alloc_cpu_set, cpu_set_s, first_outside, cpu_result, member}

-- strtol(token, NULL, 0), without a sign: hexadecimal after 0x, octal after 0, else decimal; 0 where
-- nothing converts, and at most LONG_MAX.
unfoldable pub strtol : List ℕ → ℕ
unfolding skip_spaces scan_digits skip_hex_prefix
strtol token =
    let text = skip_spaces token in
    let digits = skip_hex_prefix text in
    let base : ℕ =
      if not (length digits == length text)
      then 16
      else if get_or text 0 0 == 0x30
      then 8
      else 10 in
    (scan_digits base 0 digits).0

abbrev pub long_max : ℕ
long_max = 2 ^ 63 - 1

-- The delimiter at the end of a token of more than one byte becomes the end of the text.
unfoldable pub strip_delimiter : List ℕ → List ℕ
strip_delimiter token =
    if ltb 1 (length token) && not (get_or token (length token - 1) 0 == 0)
    then take (length token - 1) token
    else token

-- while ((readn = getdelim(&token, &n, ',', fp)) != -1); `none` after a number out of range.
unfoldable pub read_cpu_list : Env → ℕ → ℤ → CpuSet → Proc (Option CpuSet)
unfolding strtol strip_delimiter cpu_set_s
read_cpu_list env zero fp set s = fault s
read_cpu_list env (suc fuel) fp set s = bind (ask_out env (read_token fp) s) λ (readn, token).
    let core_cpu = strtol (strip_delimiter token) in
    let rest = read_cpu_list env fuel fp (cpu_set_s (pos core_cpu) set) in
    if is_neg readn then pure (some set) else if leb long_max core_cpu then pure none else rest

unfoldable pub core_cpus_list_path : ℕ → List ℕ
core_cpus_list_path cpu =
    codes "/sys/devices/system/cpu/cpu" ++ print_int (pos cpu) ++ codes "/topology/core_cpus_list"

-- The set with the CPUs of the core of `cpu`; `none` is a return of -1. The set's size is not 0.
unfoldable pub set_core_cpus : Env → ℕ → ℕ → CpuSet → Proc (Option CpuSet)
unfolding read_cpu_list core_cpus_list_path
set_core_cpus env fuel cpu set = do
  fp ← ask env (fopen (core_cpus_list_path cpu))
  if u64 fp == 0
      then pure none
      else do found ← read_cpu_list env fuel fp set; emit (fclose fp); pure found

-- for (i = 0; i < nprocs; i++), from `i` on with `n` rounds left: the cores of the CPUs in `cpus`.
unfoldable pub core_cpus_of : Env → ℕ → (n i : ℕ) → List ℕ → CpuSet → Proc (Option CpuSet)
unfolding set_core_cpus
core_cpus_of env fuel zero i cpus set s = pure (some set) s
core_cpus_of env fuel (suc n) i cpus set s =
    let skip = core_cpus_of env fuel n (i + 1) cpus set in
    let visit : Proc (Option CpuSet) = set_core_cpus env fuel i set >>= λ found. elim found [
      | none ↦ pure none
      | some set' ↦ λ t. core_cpus_of env fuel n (i + 1) cpus set' t
    ] in
    (if member i cpus then visit else skip) s

abbrev pub preferred : ℕ → Option CpuSet → ℤ
preferred nprocs none = minus_one
preferred nprocs (some cores) = cpu_result (first_outside nprocs 0 cores.cpus)

unfoldable pub get_preferred_cpu : Env → (fuel : ℕ) → ℤ → Fn
unfolding core_cpus_of first_outside alloc_cpu_set
get_preferred_cpu env fuel pid = fn do
  cpu_set ← alloc_cpu_set env
  return_if (elim cpu_set [ none ↦ true | some _ ↦ false ]) minus_one
  (rc, affinity) ← ask_out env (sched_getaffinity pid)
  when (is_neg rc) (emit cpu_free >> return minus_one)
  nprocs ← ask env get_nprocs
  core_cpu_set ← alloc_cpu_set env
  ret ← elim core_cpu_set [
    | none ↦ pure minus_one
    | some cores ↦ do
      found ← core_cpus_of env fuel (u64 nprocs) 0 affinity cores
      emit cpu_free
      pure (preferred (u64 nprocs) found)
  ]
  emit cpu_free
  return ret
