-- ===== src/Utils/Maps/Parse.antt =====
-- One line of /proc/<pid>/maps: sscanf(line, "%lx-%lx %c%c%c%c %lx", ...) on the variables of
-- `setup_map_info`, which keep their values from line to line where a conversion fails.
use ultrasight.Common.{
  ℕ, ◌-◌, ◌&&◌, none, some, List, [], ◌∷◌, length, get_or, take, ltb, ◌==◌, if◌then◌else◌,
}
use ultrasight.Utils.Scan.{scan_lx, skip_spaces}

pub record Fields : Type 0 where
  pub start : ℕ
  pub end : ℕ
  pub offset : ℕ
  pub x : ℕ

-- The fifth to the last conversion, from the blank before the offset on.
unfoldable pub scan_offset : Fields → List ℕ → Fields
scan_offset f cs = elim (scan_lx cs) [
  | none ↦ f
  | some (offset, rest) ↦ record f { offset = offset }
]

-- %c%c%c%c: the third of the four characters is `x`.
unfoldable pub scan_permissions : Fields → List ℕ → Fields
unfolding scan_offset
scan_permissions f (r ∷ w ∷ x ∷ p ∷ cs) = scan_offset (record f { x = x }) cs
scan_permissions f (r ∷ w ∷ x ∷ []) = record f { x = x }
scan_permissions f cs = f

-- The dash, the end, and a blank.
unfoldable pub scan_end : Fields → List ℕ → Fields
unfolding scan_permissions
scan_end f [] = f
scan_end f (c ∷ cs) =
    if c == 0x2d
    then elim (scan_lx cs) [
      | none ↦ f
      | some (e, rest) ↦ scan_permissions (record f { end = e }) (skip_spaces rest)
    ]
    else f

unfoldable pub scan_line : Fields → List ℕ → Fields
unfolding scan_end
scan_line f line = elim (scan_lx line) [
  | none ↦ f
  | some (s, rest) ↦ scan_end (record f { start = s }) rest
]

-- The newline at the end of a line is cut.
unfoldable pub strip_newline : List ℕ → List ℕ
strip_newline line =
    if ltb 0 (length line) && get_or line (length line - 1) 0 == 0x0a
    then take (length line - 1) line
    else line
