-- ===== src/Tests/Records.antt =====
-- A record of two fetches and an export, the events of a device with four bytes, and a line of the maps.
use ultrasight.Common.{
  minus_one, ◌≡◌, refl, ℕ, inr, ℤ, pos, true, false, List, [], ◌∷◌, ◌++◌, codes, length, leb,
  if◌then◌else◌, arith,
}
use ultrasight.Machine.{read_line, Env, Machine, Buffer, Call, read_file}
use ultrasight.Buffer.Trace.{alloc_trace_buf}
use ultrasight.Buffer.Trace.Runs.{Op, fetch, export}
use ultrasight.Buffer.Trace.Alloc.{Allocated, alloc_trace_buf-Allocated}
use ultrasight.Buffer.Ksight.Events.{reads}
use ultrasight.Utils.Maps.Parse.{Fields, scan_line, strip_newline}
use ultrasight.Utils.Maps.Setup.{add_line, no_map}
use ultrasight.Utils.Maps.Line.{Mapping, IsMapping, line_of, add_line-line_of}
use ultrasight.Utils.Dump.{dump_maps}
use ultrasight.Utils.Dump.Copy.{Copies, FileEnds, line_reads, dump_maps-Copies}
use ultrasight.Session.Init.{init_trace}
use ultrasight.Tracer.Parent.{parent}
use ultrasight.Files.Uses.{Open}
use ultrasight.Files.Parent.{init_trace-Open, parent-Open}
use ultrasight.Tests.Sample.{env, machine, maps_env}

abbrev empty_buf : Buffer
empty_buf = record { base = 0x1000; size = 16; ptr = 0x1000; bytes = λ _. 0 }

abbrev started : Machine
started = record machine { trace_buf = empty_buf }

abbrev ops : List Op
ops = fetch ∷ fetch ∷ export (codes "cstrace.bin") ∷ []

-- The same without the fetcher thread.
abbrev alone : Machine
alone = record started { fetcher_on = false }

alloc_trace_buf-Allocated_example : Allocated env (alloc_trace_buf env machine)
alloc_trace_buf-Allocated_example =
    alloc_trace_buf-Allocated env machine (inr (0x1000, refl, refl, omega arith)) refl

-- Four bytes, at the first read with room for them.
abbrev tag_bytes : List ℕ
tag_bytes = 1 ∷ 2 ∷ 3 ∷ 4 ∷ []

abbrev tagged : ℕ → ℕ → List ℕ
tagged count size = if leb 1 count then [] else if leb 4 size then tag_bytes else []

abbrev tag_answer : List Call → Call → ℤ
tag_answer l (read_file fd size) = pos (length (tagged (reads l) size))
tag_answer l _ = pos 0x2000

abbrev tag_written : List Call → Call → List ℕ
tag_written l (read_file fd size) = tagged (reads l) size
tag_written l _ = []

abbrev tag_env : Env
tag_env = record env { ret = tag_answer; out = tag_written }

abbrev tag_machine : Machine
tag_machine = record machine { ksight_buf = record empty_buf { size = 80 } }

-- 400000-452000 r-xp 00000000 08:02 17 /bin/ls
abbrev mapping : Mapping
mapping = record {
  start = 0x400000;
  start_digits = 5;
  end = 0x452000;
  end_digits = 5;
  offset = 0;
  offset_digits = 7;
  r = b'r';
  w = b'-';
  x = b'x';
  p = b'p';
  info = codes "08:02 17 ";
  path = codes "bin/ls";
}

mapping-IsMapping : IsMapping mapping
mapping-IsMapping = record {
  start_fits = omega arith;
  start_small = omega arith;
  end_fits = omega arith;
  end_small = omega arith;
  offset_fits = omega arith;
  offset_small = omega arith;
  permissions = (refl, (refl, (refl, (refl, tt))));
  r_printable = refl;
  info_lem = (refl, (refl, (refl, (refl, (refl, (refl, (refl, (refl, (refl, tt)))))))));
}

abbrev fields : Fields
fields = record { start = 7; end = 7; offset = 7; x = 7 }

add_line-line_of_example :
    let line = strip_newline (line_of mapping ++ 0x0a ∷ []) in
    add_line 1 (scan_line fields line) line 0 (no_map ∷ []) ≡ (
      1,
      record { start = 0x400000; end = 0x452000; offset = 0; buf = 0; path = codes "/bin/ls" } ∷ [],
    )
add_line-line_of_example =
    add_line-line_of 1 fields mapping 0 (no_map ∷ []) mapping-IsMapping refl (omega arith)

init_trace-Open_example :
    Open maps_env [] [] (init_trace maps_env 9 fields (pos 1) (pos 42) machine)
init_trace-Open_example = init_trace-Open maps_env 9 fields (pos 1) (pos 42) [] machine refl

parent-Open_example : Open maps_env [] [] (parent maps_env 9 9 fields 0 (pos 42) machine)
parent-Open_example = parent-Open maps_env 9 9 fields 0 (pos 42) [] machine refl

-- A file of one line.
abbrev text_answer : List Call → Call → ℤ
text_answer l (read_line fp) = if leb 1 (line_reads l) then minus_one else pos 5
text_answer l _ = pos 0x6000

abbrev text_env : Env
text_env = record env { ret = text_answer; out = λ l c. codes "maps" ++ 0x0a ∷ [] }

text_env-ends : FileEnds text_env 1
text_env-ends l fp h = let past : leb 1 (line_reads l) ≡ true = ground arith in rw past refl

dump_maps-Copies_example :
    Copies text_env (pos 1) machine (dump_maps text_env 2 (pos 1) (pos 42) machine)
dump_maps-Copies_example =
    dump_maps-Copies text_env 1 1 (pos 1) (pos 42) machine text_env-ends (omega arith)
