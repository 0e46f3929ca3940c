-- ===== src/Tracer/Options.antt =====
-- src/cs-trace.c: the options of the command line.
pub mod Last
use ultrasight.Common.{
  ℕ, zero, suc, ◌+◌, ◌*◌, ◌^◌, ℤ, pos, negsuc, Bool, true, Option, none, some, List, [], ◌∷◌, codes,
  ◌==◌, if◌then◌else◌,
}
use ultrasight.Machine.{Machine, Proc, fault, ◌>>=◌, ◌>>◌, bind, modify, return, pure}
use ultrasight.Utils.Scan.{skip_spaces, scan_digits}

-- no_argument, required_argument and optional_argument.
pub data HasArg : Type 0 where
  no_argument required_argument optional_argument : HasArg

-- `struct option`
pub record LongOption : Type 0 where
  pub name : List ℕ
  pub has_arg : HasArg
  pub val : ℕ

-- The entry of zeros that ends the table is the end of the list.
abbrev pub long_options : List LongOption
long_options =
    (record { name = codes "board"; has_arg = required_argument; val = b'b' })
    ∷ (record { name = codes "cpu"; has_arg = required_argument; val = b'c' })
    ∷ (record { name = codes "export"; has_arg = no_argument; val = b'e' })
    ∷ (record { name = codes "fetcher"; has_arg = no_argument; val = b'f' })
    ∷ (record { name = codes "udmabuf"; has_arg = required_argument; val = b'u' })
    ∷ (record { name = codes "ksight"; has_arg = no_argument; val = b'k' })
    ∷ (record { name = codes "verbose"; has_arg = optional_argument; val = b'v' })
    ∷ (record { name = codes "help"; has_arg = no_argument; val = b'h' })
    ∷ []

abbrev pub optstring : List ℕ
optstring = codes "b:c:e:f:k:v::h"

-- The sign, and the digits behind it. Past the range of an int, atoi is undefined.
abbrev signed : List ℕ → ℤ
signed [] = pos 0
signed (c ∷ cs) =
    if c == b'-'
    then elim ((scan_digits 10 0 cs).0) [ zero ↦ pos 0 | suc n ↦ negsuc n ]
    else pos (if c == b'+' then (scan_digits 10 0 cs).0 else (scan_digits 10 0 (c ∷ cs)).0)

unfoldable pub atoi : List ℕ → ℤ
unfolding skip_spaces scan_digits
atoi text = signed (skip_spaces text)

-- `optarg` read as a text; it may be NULL.
abbrev pub with_arg : Option (List ℕ) → (List ℕ → Machine → Machine) → Proc (Unit {0})
with_arg none f s = fault s
with_arg (some text) f s = modify (f text) s

-- `optarg`, for the option that may go without
abbrev pub verbose_level : Option (List ℕ) → ℤ
verbose_level none = pos 1
verbose_level (some text) = atoi text

-- `optarg` as a name, where NULL is the empty one
abbrev pub name_of : Option (List ℕ) → List ℕ
name_of none = []
name_of (some text) = text

-- The switch, for one option and its argument. -h leaves the program with EXIT_SUCCESS.
unfoldable pub handle_option : ℕ → Option (List ℕ) → Proc (Unit {0})
handle_option opt optarg =
    if opt == b'b'
    then modify (λ s. record s { board_name = name_of optarg })
    else if opt == b'c'
    then with_arg optarg (λ text s. record s { trace_cpu = atoi text })
    else if opt == b'e'
    then modify (λ s. record s { export_config = true })
    else if opt == b'f'
    then modify (λ s. record s { fetcher_on = true })
    else if opt == b'u'
    then with_arg optarg (λ text s. record s { udmabuf_num = atoi text })
    else if opt == b'k'
    then modify (λ s. record s { ksight_on = true })
    else if opt == b'v'
    then modify (λ s. record s { registration_verbose = verbose_level optarg })
    else if opt == b'h'
    then return (pos 0)
    else pure tt

-- while ((opt = getopt_long(...)) != -1), over what getopt_long gives.
unfoldable pub handle_options : List (ℕ × Option (List ℕ)) → Proc (Unit {0})
unfolding handle_option
handle_options [] = pure tt
handle_options ((opt, optarg) ∷ rest) = handle_option opt optarg >> handle_options rest
