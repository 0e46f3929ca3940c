-- ===== src/Stm.antt =====
-- src/stm_preload.c, and `setup_stm_region` and `clean_stm_region` of src/utils.c: the STM's stimulus ports
-- mapped from /dev/mem.
pub mod Audit
use ultrasight.Common.{
  ℕ, ℤ, pos, minus_one, u64, is_neg, Bool, not, List, codes, ◌==◌, if◌then◌else◌,
}
use ultrasight.Machine.{
  open_file, close_file, mmap_file, munmap, set_register, Env, Proc, ◌>>=◌, ◌>>◌, pure, when, ask,
  emit,
}
use ultrasight.Buffer.Memory.{map_failed}

-- STM_STIMULUS_BASE and STM_MAP_SIZE
abbrev pub stm_stimulus_base : ℕ
stm_stimulus_base = 0xF8000000

abbrev pub stm_map_size : ℕ
stm_map_size = 0x1000

abbrev pub dev_mem : List ℕ
dev_mem = codes "/dev/mem"

-- `stm_region_ptr`, a __thread variable: its value in each thread, NULL at first.
abbrev pub no_pointer : ℕ → ℕ
no_pointer thread = 0

-- The constructor of the preload library, run by `thread`; the result is what `stm_region_ptr` is then.
unfoldable pub preload_stm_region : Env → (thread : ℕ) → (ℕ → ℕ) → Proc (ℕ → ℕ)
preload_stm_region env thread stm_region_ptr = do
  fd ← ask env (open_file dev_mem)
  if is_neg fd then pure stm_region_ptr else do
    mapped_region ← ask env (mmap_file stm_map_size fd stm_stimulus_base)
    if u64 mapped_region == map_failed then (emit (close_file fd) >> pure stm_region_ptr) else do
      emit (close_file fd)
      emit (set_register 26 (u64 mapped_region))
      pure (λ t. if t == thread then u64 mapped_region else stm_region_ptr t)

-- Its destructor, run by `thread`.
unfoldable pub unload_stm_region : (thread : ℕ) → (ℕ → ℕ) → Proc (Unit {0})
unload_stm_region thread stm_region_ptr =
    when (not (stm_region_ptr thread == 0)) (emit (munmap (stm_region_ptr thread) stm_map_size))

-- `setup_stm_region`; the result is what it returns, and what it stores through `fd`. The address of the
-- mapping is stored in the parameter `map_base`, which the caller does not see.
unfoldable pub setup_stm_region : Env → Proc (ℤ × ℤ)
setup_stm_region env = do
  fd ← ask env (open_file dev_mem)
  if is_neg fd then pure (minus_one, fd) else do
    map_base ← ask env (mmap_file stm_map_size fd stm_stimulus_base)
    if u64 map_base == map_failed
        then (emit (close_file fd) >> pure (minus_one, fd))
        else (emit (set_register 28 stm_stimulus_base) >> pure (pos 0, fd))

unfoldable pub clean_stm_region : (fd : ℤ) (map_base : ℕ) → Proc (Unit {0})
clean_stm_region fd map_base = do emit (munmap map_base stm_map_size); emit (close_file fd)
