-- ===== src/Utils/Dump/Copy.antt =====
-- `dump_maps` copies the file.
use ultrasight.Common.{
  ◌≡◌, refl, ap, sym, ◌∙◌, inl, inr, ℕ, zero, suc, ◌+◌, ◌≤◌, ℤ, u64, is_neg, true, Bool-cases, List,
  [], ◌∷◌, ◌++◌, codes, append-nil, append_assoc, ◌==◌, if◌then◌else◌, arith,
}
use ultrasight.Machine.{
  Env, Machine, Flow, next, done, fault, bind, Call, read_line, fprintf, fopen, fclose, emit,
}
use ultrasight.Utils.Scan.{print_int}
use ultrasight.Utils.Dump.{copy_lines, dump_maps}

-- The text of all lines that the log reads, of all that it writes to a stream, and the number of reads.
abbrev pub lines_read : Env → List Call → List ℕ
lines_read env [] = []
lines_read env (read_line fp ∷ l) =
    lines_read env l ++ (if is_neg (env.ret l (read_line fp)) then [] else env.out l (read_line fp))
lines_read env (_ ∷ l) = lines_read env l

abbrev pub written : ℤ → List Call → List ℕ
written stream [] = []
written stream (fprintf file text ∷ l) =
    if u64 file == u64 stream then written stream l ++ text else written stream l
written stream (_ ∷ l) = written stream l

same_stream : (stream : ℤ) → u64 stream == u64 stream ≡ true
same_stream stream = ground arith

abbrev pub line_reads : List Call → ℕ
line_reads [] = 0
line_reads (read_line fp ∷ l) = suc (line_reads l)
line_reads (_ ∷ l) = line_reads l

-- The file ends after `n` reads.
abbrev pub FileEnds : Env → ℕ → Type 0
FileEnds env n =
    (l : List Call) (fp : ℤ) → n ≤ line_reads l → is_neg (env.ret l (read_line fp)) ≡ true

-- What is written is what is read.
abbrev pub Copies : Env → ℤ → Machine → Flow (Unit {0}) → Type 0
Copies env stream s (next _ t) =
    (text : List ℕ) × (lines_read env t.log ≡ lines_read env s.log ++ text)
    × (written stream t.log ≡ written stream s.log ++ text)
Copies env stream s (done r t) = ⊥
Copies env stream s (fault t) = ⊥

copied_on :
    (env : Env) (stream : ℤ) (s t : Machine) (line : List ℕ) (f : Flow (Unit {0}))
    → lines_read env t.log ≡ lines_read env s.log ++ line
    → written stream t.log ≡ written stream s.log ++ line
    → Copies env stream t f
    → Copies env stream s f
copied_on env stream s t line (next _ u) e w (text, e', w') = (
  line ++ text,
  e' ∙ ap (λ xs. xs ++ text) e ∙ append_assoc (lines_read env s.log) line text,
  w' ∙ ap (λ xs. xs ++ text) w ∙ append_assoc (written stream s.log) line text,
)
copied_on env stream s t line (done r u) e w c = c
copied_on env stream s t line (fault u) e w c = c

copy_lines-Copies :
    (env : Env) (n fuel : ℕ) (stream fp : ℤ) (s : Machine)
    → FileEnds env n
    → n ≤ line_reads s.log + fuel
    → Copies env stream s (copy_lines env (suc fuel) stream fp s)
unfolding copy_lines
copy_lines-Copies env n zero stream fp s ends enough =
    rw (ends s.log fp (omega arith), ends s.log fp (omega arith))
      ([], refl, sym (append-nil (written stream s.log)))
copy_lines-Copies env n (suc fuel) stream fp s ends enough =
    elim (Bool-cases (is_neg (env.ret s.log (read_line fp)))) [
      | inl end ↦ rw (end, end) ([], refl, sym (append-nil (written stream s.log)))
      | inr more ↦ rw more (
          copied_on env stream s (record s { log = fprintf stream line ∷ read_line fp ∷ s.log })
            line
            (copy_lines env (suc fuel) stream fp
              (record s { log = fprintf stream line ∷ read_line fp ∷ s.log }))
            (rw more refl) (rw (same_stream stream) refl)
            (copy_lines-Copies env n fuel stream fp
              (record s { log = fprintf stream line ∷ read_line fp ∷ s.log }) ends (omega arith)))
    ]
  where
    line : List ℕ
    line = env.out s.log (read_line fp)

closed_after :
    (env : Env) (stream : ℤ) (s : Machine) (fp : ℤ) (f : Flow (Unit {0}))
    → Copies env stream s f
    → Copies env stream s (bind f (λ _. emit (fclose fp)))
closed_after env stream s fp (next _ t) c = c
closed_after env stream s fp (done r t) c = c
closed_after env stream s fp (fault t) c = c

-- Where the file of the maps ends after `n` reads: with a round more, `dump_maps` returns, and has written
-- to the stream exactly the lines that it read, in their order, and nothing where the file cannot be opened.
pub dump_maps-Copies :
    (env : Env) (n fuel : ℕ) (stream pid : ℤ) (s : Machine)
    → FileEnds env n
    → n ≤ line_reads s.log + fuel
    → Copies env stream s (dump_maps env (suc fuel) stream pid s)
unfolding dump_maps
dump_maps-Copies env n fuel stream pid s ends enough = elim (Bool-cases (u64 fp == 0)) [
  | inl none ↦
      rw none ([], sym (append-nil (lines_read env s.log)), sym (append-nil (written stream s.log)))
  | inr found ↦ rw found (
      closed_after env stream s fp (copy_lines env (suc fuel) stream fp opened) (
        copied_on env stream s opened [] (copy_lines env (suc fuel) stream fp opened)
          (sym (append-nil (lines_read env s.log))) (sym (append-nil (written stream s.log)))
          (copy_lines-Copies env n fuel stream fp opened ends enough)))
]
  where
    path : List ℕ
    path = codes "/proc/" ++ print_int pid ++ codes "/maps"

    fp : ℤ
    fp = env.ret s.log (fopen path)

    opened : Machine
    opened = record s { log = fopen path ∷ s.log }
