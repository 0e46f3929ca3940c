-- ===== src/Utils/Dump.antt =====
-- src/utils.c: `dump_buf`, `dump_maps` and `dump_map_info`, which write to a file or a given stream.
pub mod Copy
use ultrasight.Common.{
  ℕ, zero, suc, ◌+◌, ◌/◌, ◌%◌, ℤ, pos, u64, is_neg, List, [], ◌∷◌, ◌++◌, codes, get_or, ◌==◌,
  if◌then◌else◌,
}
use ultrasight.Machine.{
  MapInfo, fopen, fwrite, fprintf, fclose, read_line, Env, Proc, fault, bind, ◌>>=◌, ◌>>◌, pure,
  get, ask, ask_out, emit, for_range,
}
use ultrasight.Utils.Scan.{print_int}
use ultrasight.Utils.Maps.Hex.{hex_digit}
use ultrasight.Utils.Maps.Setup.{no_map}

-- `buf` stands for the `buf_size` bytes at the address; a short write is only reported.
unfoldable pub dump_buf : Env → (buf buf_path : List ℕ) → Proc (Unit {0})
dump_buf env buf buf_path = do
  fp ← ask env (fopen buf_path)
  if u64 fp == 0 then pure tt else (emit (fwrite fp buf) >> emit (fclose fp))

-- while (getline(&line, &n, fp) != -1); without fuel left the model faults.
unfoldable pub copy_lines : Env → (fuel : ℕ) → (stream fp : ℤ) → Proc (Unit {0})
copy_lines env zero stream fp s = fault s
copy_lines env (suc fuel) stream fp s = bind (ask_out env (read_line fp) s) λ (readn, line).
    let rest = copy_lines env fuel stream fp in
    if is_neg readn then pure tt else (emit (fprintf stream line) >> rest)

unfoldable pub dump_maps : Env → (fuel : ℕ) → (stream pid : ℤ) → Proc (Unit {0})
unfolding copy_lines
dump_maps env fuel stream pid = do
  fp ← ask env (fopen (codes "/proc/" ++ print_int pid ++ codes "/maps"))
  if u64 fp == 0 then pure tt else (copy_lines env fuel stream fp >> emit (fclose fp))

-- %lx, in front of `rest`, with fuel for the digits.
unfoldable pub print_hex : (fuel n : ℕ) → List ℕ → List ℕ
print_hex zero n rest = rest
print_hex (suc fuel) n rest =
    let more = print_hex fuel (n / 16) (hex_digit (n % 16) ∷ rest) in
    if n / 16 == 0 then hex_digit (n % 16) ∷ rest else more

-- "[0x%lx-0x%lx]@0x%lx: %s\n"; an `unsigned long` has sixteen digits at most.
unfoldable pub map_text : MapInfo → List ℕ
unfolding print_hex
map_text m =
    codes "[0x"
    ++ print_hex 16 m.start (
        codes "-0x"
        ++ print_hex 16 m.end
            (codes "]@0x" ++ print_hex 16 m.offset (codes ": " ++ m.path ++ 0x0a ∷ [])))

-- How often a loop from 0 up to an int runs.
abbrev rounds : ℤ → ℕ
rounds (pos n) = n
rounds _ = 0

unfoldable pub dump_map_info :
    (stream : ℤ) → (map_info : List MapInfo) → (range_count : ℤ) → Proc (Unit {0})
unfolding map_text
dump_map_info stream map_info range_count =
    for_range (rounds range_count) 0
      λ i. emit (fprintf stream (map_text (get_or map_info i no_map)))
