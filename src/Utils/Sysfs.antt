-- ===== src/Utils/Sysfs.antt =====
-- src/utils.c: `get_udmabuf_info`, `get_ksight_info`, `ksight_set_traced_pid` and
-- `ksight_set_enable`.
use ultrasight.Common.{
  ℕ, ◌%◌, ◌^◌, ℤ, pos, minus_one, u64, is_neg, is_nonzero, not, ◌||◌, Option, none, some, List, [],
  ◌∷◌, ◌++◌, length, get_or, codes, ◌==◌,
}
use ultrasight.Machine.{
  stat, open_file, read_file, write_file, close_file, Env, Proc, Fn, ◌>>=◌, ◌>>◌, pure, return,
  return_if, when, fn, modify, ask, ask_out, emit,
}
use ultrasight.Utils.Scan.{scan_lx, scan_decimal, print_int}

abbrev pub udmabuf_root : List ℕ
udmabuf_root = codes "/sys/class/u-dma-buf"

abbrev pub ksight_root : List ℕ
ksight_root = codes "/sys/class/ksight"

-- stat(path) fails, or the path is no directory: `stat` writes whether it is one.
unfoldable pub check_directory : Env → List ℕ → Proc (Unit {0})
check_directory env path = do
  (rc, mode) ← ask_out env (stat path)
  return_if (is_nonzero rc || get_or mode 0 0 == 0) minus_one

-- sizeof(attr) - 1 bytes at most count, since the buffer ends in a zero byte for sscanf.
unfoldable pub read_attribute : Env → List ℕ → Proc (List ℕ)
read_attribute env path = do
  fd ← ask env (open_file path)
  return_if (is_neg fd) minus_one
  (n, attr) ← ask_out env (read_file fd 1024)
  when (is_neg n) (emit (close_file fd) >> return minus_one)
  emit (close_file fd)
  pure attr

-- sscanf leaves the target alone where nothing converts.
abbrev pub scanned : Option (ℕ × List ℕ) → ℕ → ℕ
scanned none old = old
scanned (some (n, rest)) old = n % 2 ^ 64

unfoldable pub get_udmabuf_info : Env → ℤ → Fn
unfolding check_directory read_attribute
get_udmabuf_info env udmabuf_num = fn do
  let dir = udmabuf_root ++ codes "/udmabuf" ++ print_int udmabuf_num
  check_directory env dir
  addr ← read_attribute env (dir ++ codes "/phys_addr")
  modify λ s. record s { etr_ram_addr = scanned (scan_lx addr) s.etr_ram_addr }
  size ← read_attribute env (dir ++ codes "/size")
  modify λ s. record s { etr_ram_size = scanned (scan_decimal size) s.etr_ram_size }
  return (pos 0)

unfoldable pub get_ksight_info : Env → Fn
unfolding check_directory read_attribute
get_ksight_info env = fn do
  check_directory env (ksight_root ++ codes "/ksight")
  addr ← read_attribute env (ksight_root ++ codes "/ksight/ring_phys")
  modify λ s. record s { ksight_ram_addr = scanned (scan_lx addr) s.ksight_ram_addr }
  return (pos 0)

-- "%d\n" written to an attribute of ksight.
unfoldable pub write_attribute : Env → List ℕ → ℤ → Fn
unfolding check_directory
write_attribute env name value = fn do
  check_directory env (ksight_root ++ codes "/ksight")
  fd ← ask env (open_file (ksight_root ++ codes "/ksight/" ++ name))
  return_if (is_neg fd) minus_one
  let text = print_int value ++ 0x0a ∷ []
  n ← ask env (write_file fd text)
  when (not (u64 n == length text)) (emit (close_file fd) >> return minus_one)
  emit (close_file fd)
  return (pos 0)

unfoldable pub ksight_set_traced_pid : Env → ℤ → Fn
unfolding write_attribute
ksight_set_traced_pid env pid = write_attribute env (codes "traced_pid") pid

unfoldable pub ksight_set_enable : Env → ℤ → Fn
unfolding write_attribute
ksight_set_enable env enable = write_attribute env (codes "enable") enable
