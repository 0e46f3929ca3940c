-- ===== src/Utils/Maps/Setup.antt =====
-- The two loops of `setup_map_info`.
use ultrasight.Common.{
  ℕ, zero, suc, ◌+◌, ◌-◌, ◌*◌, ◌/◌, ◌%◌, ◌^◌, ℤ, pos, negsuc, minus_one, u64, is_neg, Bool, true,
  false, not, none, some, List, [], ◌++◌, get_or, set, take, leb, codes, ◌==◌, if◌then◌else◌,
}
use ultrasight.Machine.{
  MapInfo, fopen, fclose, read_line, open_file, close_file, mmap_file, Env, Proc, Fn, fault, bind,
  ◌>>=◌, ◌>>◌, pure, return, return_if, when, fn, get, modify, ask, ask_out, emit, for_range,
}
use ultrasight.Utils.Scan.{print_int, find_char}
use ultrasight.Utils.Maps.Parse.{Fields, scan_line, strip_newline}

abbrev pub path_max : ℕ
path_max = 4096

abbrev pub no_map : MapInfo
no_map = record { start = 0; end = 0; offset = 0; buf = 0; path = [] }

-- The entry made of a line's fields and path.
unfoldable pub map_entry : Fields → List ℕ → MapInfo
map_entry f path = record {
  start = f.start;
  end = f.end;
  offset = f.offset;
  buf = 0;
  path = take (path_max - 1) path;
}

-- What a line adds: an entry at `count`, if it is executable, there is room, and it has a path.
unfoldable pub add_line :
    (info_count_max : ℕ) → Fields → List ℕ → (count : ℕ) → List MapInfo → ℕ × List MapInfo
unfolding map_entry
add_line info_count_max f line count infos =
    if not (f.x == 0x78)
    then (count, infos)
    else if leb info_count_max count
    then (count, infos)
    else elim (find_char 0x2f line) [
      | none ↦ (count, infos)
      | some path ↦ (count + 1, set infos count (map_entry f path))
    ]

-- while ((readn = getline(&line, &n, fp)) != -1); without fuel left the model faults.
unfoldable pub read_maps :
    Env → (fuel info_count_max : ℕ) → ℤ → Fields → ℕ × List MapInfo → Proc (ℕ × List MapInfo)
unfolding add_line
read_maps env zero info_count_max fp f acc s = fault s
read_maps env (suc fuel) info_count_max fp f acc s =
    bind (ask_out env (read_line fp) s) λ (readn, text).
      let line = strip_newline text in
      let f' = scan_line f line in
      let rest =
        read_maps env fuel info_count_max fp f' (add_line info_count_max f' line acc.0 acc.1) in
      if is_neg readn then pure acc else rest

-- ALIGN_UP(val, PAGE_SIZE)
abbrev pub align_up_page : ℕ → ℕ
align_up_page val = (val + 0xfff) % 2 ^ 64 / 2 ^ 12 * 2 ^ 12

-- fd < -1
abbrev pub below_minus_one : ℤ → Bool
below_minus_one (pos n) = false
below_minus_one (negsuc zero) = false
below_minus_one (negsuc (suc n)) = true

-- One round of the loop that maps the files. The tests are the code's: a failed open gives -1, which
-- is not below -1, and a failed mmap gives MAP_FAILED, which is not NULL.
unfoldable pub map_file : Env → ℕ → Proc (Unit {0})
map_file env i = do
  s ← get
  let m = get_or s.map_info i no_map
  fd ← ask env (open_file m.path)
  return_if (below_minus_one fd) minus_one
  buf ← ask env (mmap_file (align_up_page ((m.end + 2 ^ 64 - m.start) % 2 ^ 64)) fd m.offset)
  when (u64 buf == 0) (emit (close_file fd) >> return minus_one)
  modify λ t. record t { map_info = set t.map_info i (record m { buf = u64 buf }) }
  emit (close_file fd)

-- The variables of the first loop are not initialised: `fields` stands for what they hold.
unfoldable pub setup_map_info : Env → (fuel : ℕ) → Fields → ℤ → (info_count_max : ℕ) → Fn
unfolding read_maps map_file
setup_map_info env fuel fields pid info_count_max = fn do
  fp ← ask env (fopen (codes "/proc/" ++ print_int pid ++ codes "/maps"))
  return_if (u64 fp == 0) minus_one
  s ← get
  (count, infos) ← read_maps env fuel info_count_max fp fields (0, s.map_info)
  modify λ t. record t { map_info = infos }
  emit (fclose fp)
  for_range count 0 (map_file env)
  return (pos count)
