-- ===== src/Utils/Maps/Line.antt =====
-- A line of /proc/<pid>/maps, as proc(5) describes it, becomes the entry of its mapping.
use ultrasight.Common.{
  ℕ, zero, suc, ◌+◌, ◌-◌, ◌^◌, ◌<◌, ◌≡◌, refl, ap, ◌∙◌, true, false, none, some, List, [], ◌∷◌,
  ◌++◌, length, ◌%◌, length-append, take, get_or, set, ltb, leb, ◌==◌, arith,
}
use ultrasight.Machine.{MapInfo}
use ultrasight.Utils.Scan.{is_space, skip_spaces, scan_lx, find_char, digit_in}
use ultrasight.Utils.Maps.Parse.{
  Fields, scan_line, scan_end, scan_permissions, scan_offset, strip_newline,
}
use ultrasight.Utils.Maps.Setup.{add_line, map_entry, path_max}
use ultrasight.Utils.Maps.Hex.{hex, hex_digit, shift, scan_lx-hex}

-- A mapping: its range and offset, each with the digits that are printed of it less one, the four
-- characters of its permissions, the text between the offset and the path (with the device and the
-- inode), and the path from its slash on.
pub record Mapping : Type 0 where
  pub start : ℕ
  pub start_digits : ℕ
  pub end : ℕ
  pub end_digits : ℕ
  pub offset : ℕ
  pub offset_digits : ℕ
  pub r : ℕ
  pub w : ℕ
  pub x : ℕ
  pub p : ℕ
  pub info : List ℕ
  pub path : List ℕ

-- No slash in a text.
abbrev pub NoSlash : List ℕ → Type 0
NoSlash [] = Unit {0}
NoSlash (c ∷ cs) = (c == 0x2f ≡ false) × NoSlash cs

-- The numbers fit the digits and an `unsigned long`, the permissions are printable, and the only slashes
-- are the path's.
pub record IsMapping (m : Mapping) : Type 0 where
  pub start_fits : m.start < 16 ^ suc m.start_digits
  pub start_small : m.start < 2 ^ 64
  pub end_fits : m.end < 16 ^ suc m.end_digits
  pub end_small : m.end < 2 ^ 64
  pub offset_fits : m.offset < 16 ^ suc m.offset_digits
  pub offset_small : m.offset < 2 ^ 64
  pub permissions : NoSlash (m.r ∷ m.w ∷ m.x ∷ m.p ∷ [])
  pub r_printable : is_space m.r ≡ false
  pub info_lem : NoSlash m.info

-- "%lx-%lx %c%c%c%c %lx %s/%s"
abbrev after_offset : Mapping → List ℕ
after_offset m = b' ' ∷ m.info ++ 0x2f ∷ m.path

abbrev after_end : Mapping → List ℕ
after_end m =
    b' ' ∷ m.r ∷ m.w ∷ m.x ∷ m.p ∷ b' ' ∷ hex (suc m.offset_digits) m.offset (after_offset m)

abbrev after_start : Mapping → List ℕ
after_start m = b'-' ∷ hex (suc m.end_digits) m.end (after_end m)

abbrev pub line_of : Mapping → List ℕ
line_of m = hex (suc m.start_digits) m.start (after_start m)

dash_stops : digit_in 16 b'-' ≡ none
unfolding digit_in
dash_stops = refl

blank_stops : digit_in 16 b' ' ≡ none
unfolding digit_in
blank_stops = refl

scan_lx-blank : (cs : List ℕ) → scan_lx (b' ' ∷ cs) ≡ scan_lx cs
unfolding scan_lx skip_spaces
scan_lx-blank cs = refl

skip_blank : (c : ℕ) (cs : List ℕ) → is_space c ≡ false → skip_spaces (b' ' ∷ c ∷ cs) ≡ c ∷ cs
unfolding skip_spaces
skip_blank c cs h = rw (skip_spaces, h) refl

hex_digit_over : (d : ℕ) → d < 16 → hex_digit d == 0x2f ≡ false
hex_digit_over d h = ground arith

find_over-hex :
    (width n : ℕ) (rest : List ℕ) → find_char 0x2f (hex width n rest) ≡ find_char 0x2f rest
unfolding find_char hex
find_over-hex zero n rest = refl
find_over-hex (suc k) n rest =
    rw (find_char, hex_digit_over (shift k n % 16) (omega arith)) (find_over-hex k n rest)

find_over : (xs rest : List ℕ) → NoSlash xs → find_char 0x2f (xs ++ rest) ≡ find_char 0x2f rest
unfolding find_char
find_over [] rest h = refl
find_over (c ∷ cs) rest (other, h) = rw (find_char, other) (find_over cs rest h)

find_here : (path : List ℕ) → find_char 0x2f (0x2f ∷ path) ≡ some (0x2f ∷ path)
unfolding find_char
find_here path = refl

module _ (m : Mapping) (h : IsMapping m) where
  scan_start : scan_lx (line_of m) ≡ some (m.start, after_start m)
  scan_start =
      scan_lx-hex m.start_digits m.start (after_start m) h.start_fits h.start_small
        (dash_stops, refl)

  scan_end_number : scan_lx (hex (suc m.end_digits) m.end (after_end m)) ≡ some (m.end, after_end m)
  scan_end_number =
      scan_lx-hex m.end_digits m.end (after_end m) h.end_fits h.end_small (blank_stops, refl)

  scan_offset_number :
      scan_lx (b' ' ∷ hex (suc m.offset_digits) m.offset (after_offset m))
      ≡ some (m.offset, after_offset m)
  scan_offset_number =
      scan_lx-blank (hex (suc m.offset_digits) m.offset (after_offset m))
      ∙ scan_lx-hex m.offset_digits m.offset (after_offset m) h.offset_fits h.offset_small
          (blank_stops, refl)

  -- The fields of `sscanf`, whatever they were before.
  scan_line-line_of :
      (f : Fields)
      → scan_line f (line_of m)
        ≡ record { start = m.start; end = m.end; offset = m.offset; x = m.x }
  unfolding scan_line scan_end scan_permissions scan_offset
  scan_line-line_of f =
      rw
        (
          scan_line,
          scan_start,
          scan_end,
          scan_end_number,
          scan_permissions,
          skip_blank m.r
              (m.w ∷ m.x ∷ m.p ∷ b' ' ∷ hex (suc m.offset_digits) m.offset (after_offset m))
              h.r_printable,
          scan_offset,
          scan_offset_number,
        )
        refl

  permissions_over : NoSlash (b' ' ∷ m.r ∷ m.w ∷ m.x ∷ m.p ∷ b' ' ∷ [])
  permissions_over =
      let (r, (w, (x, (p, _)))) = h.permissions in (refl, (r, (w, (x, (p, (refl, tt))))))

  -- The first slash of the line is the path's.
  find_char-line_of : find_char 0x2f (line_of m) ≡ some (0x2f ∷ m.path)
  find_char-line_of =
      find_over-hex (suc m.start_digits) m.start (after_start m)
      ∙ find_over (b'-' ∷ []) (hex (suc m.end_digits) m.end (after_end m)) (refl, tt)
      ∙ find_over-hex (suc m.end_digits) m.end (after_end m)
      ∙ find_over (b' ' ∷ m.r ∷ m.w ∷ m.x ∷ m.p ∷ b' ' ∷ [])
          (hex (suc m.offset_digits) m.offset (after_offset m)) permissions_over
      ∙ find_over-hex (suc m.offset_digits) m.offset (after_offset m)
      ∙ find_over (b' ' ∷ m.info) (0x2f ∷ m.path) (refl, h.info_lem)
      ∙ find_here m.path

-- The newline that getline leaves at the end of a line is cut.
take_all : (xs ys : List ℕ) → take (length xs) (xs ++ ys) ≡ xs
take_all [] ys = refl
take_all (x ∷ xs) ys = ap (λ r. x ∷ r) (take_all xs ys)

last : (xs : List ℕ) (c : ℕ) → get_or (xs ++ c ∷ []) (length xs) 0 ≡ c
last [] c = refl
last (x ∷ xs) c = last xs c

strip_newline-append : (xs : List ℕ) → strip_newline (xs ++ 0x0a ∷ []) ≡ xs
unfolding strip_newline
strip_newline-append xs =
    let one_less : length (xs ++ 0x0a ∷ []) - 1 ≡ length xs =
      omega (arith, length-append xs (0x0a ∷ [])) in
    let some_bytes : ltb 0 (length (xs ++ 0x0a ∷ [])) ≡ true =
      ground (arith, length-append xs (0x0a ∷ [])) in
    rw (some_bytes, one_less, last xs 0x0a) (take_all xs (0x0a ∷ []))

add_line_found :
    (info_count_max : ℕ) (f : Fields) (line : List ℕ) (count : ℕ) (infos : List MapInfo)
    (path : List ℕ)
    → f.x ≡ 0x78
    → count < info_count_max
    → find_char 0x2f line ≡ some path
    → add_line info_count_max f line count infos ≡ (count + 1, set infos count (map_entry f path))
unfolding add_line
add_line_found info_count_max f line count infos path executable room found =
    let not_full : leb info_count_max count ≡ false = ground arith in
    rw (executable, not_full, found) refl

-- A line that the kernel prints for an executable mapping of a file, with its newline, as getline gives
-- it: while there is room, `setup_map_info` adds the entry with just the mapping's range, offset and path,
-- cut to PATH_MAX, whatever the variables of its sscanf held before.
pub add_line-line_of :
    (info_count_max : ℕ) (f : Fields) (m : Mapping) (count : ℕ) (infos : List MapInfo)
    → IsMapping m
    → m.x ≡ 0x78
    → count < info_count_max
    → let line = strip_newline (line_of m ++ 0x0a ∷ []) in
      add_line info_count_max (scan_line f line) line count infos ≡ (
        count + 1,
        set infos count (record {
          start = m.start;
          end = m.end;
          offset = m.offset;
          buf = 0;
          path = take (path_max - 1) (0x2f ∷ m.path);
        }),
      )
unfolding map_entry
add_line-line_of info_count_max f m count infos h executable room =
    ap (λ l. add_line info_count_max (scan_line f l) l count infos)
      (strip_newline-append (line_of m))
    ∙ ap (λ g. add_line info_count_max g (line_of m) count infos) (scan_line-line_of m h f)
    ∙ add_line_found info_count_max read (line_of m) count infos (0x2f ∷ m.path) executable room
        (find_char-line_of m h)
  where
    read : Fields
    read = record { start = m.start; end = m.end; offset = m.offset; x = m.x }
