-- ===== src/Tests/Sample.antt =====
-- A board with one CPU, an ETF, an ETR and an STM, and an environment in which every call succeeds.
use ultrasight.Common.{
  ℕ, ◌+◌, ◌^◌, ℤ, pos, minus_one, Bool, true, false, some, List, [], ◌∷◌, ltb, leb, length, ◌++◌,
  ◌≡◌, refl, inl, inr, if◌then◌else◌, codes, arith,
}
use ultrasight.Machine.{
  Headers, Env, Machine, Buffer, Board, Devices, EtmConfig, AdrCmp, Call, mremap, mmap,
  get_trace_data, get_buffer_unread_bytes, get_buffer_rwp, waitpid, get_nprocs, cpu_alloc, fopen,
  read_token, read_line, mmap_file, sched_getaffinity, sysconf_nprocs, sink_enable, error_count,
  running_state, start_event,
}
use ultrasight.Buffer.Laws.{MemoryLaws, DataLaws, MapResult, DataResult}

abbrev pub headers : Headers
headers = record {
  errdesc = 255;
  devclass_source = 3;
  etmversion_etmv4 = 4;
  tmc_mode_hwfifo = 2;
  etb_flfmt_ctrl = 0x304;
  etb_flfmt_ctrl_fonman = 0x40;
  etb_flfmt_ctrl_stopfl = 0x1000;
  etb_status = 0xc;
  etb_status_ftempty = 8;
  etmc_trace_enable = 1;
  etmc_config = 2;
  etmc_eventselect = 4;
  etmc_cxid_comp = 8;
  etmc_addr_comp = 16;
  etmc_all = 0xff;
  acatr_excluded = 0x7700;
}

abbrev pub blank_comparator : AdrCmp
blank_comparator = record { acvr_l = 0; acvr_h = 0; acatr_l = 0 }

abbrev pub blank_config : EtmConfig
blank_config = record {
  flags = 0;
  vmidsize = 1;
  cidsize = 4;
  vmid = 0;
  cid = 0;
  rs = 0;
  bb = 0;
  cci = 0;
  cidcvr_l = 0;
  cidcvr_h = 0;
  cidcctlr0 = 0;
  cxid_comps_acc_mask = 0;
  addr_comp0 = blank_comparator;
  addr_comp1 = blank_comparator;
  addr_comps_acc_mask = 0;
  victlr = 0;
  viiectlr = 0;
  vissctlr = 0;
  eventctlr0r = 0;
  eventctlr1r = 0;
  stallcrlr = 0;
  syncpr = 0;
}

abbrev pub board : Board
board = record { n_cpu = 1; etr_axictl = 0x2 }

abbrev pub devices : Devices
devices = record {
  etb = 10;
  tpiu = 11;
  itm = 12;
  ptm = 13 ∷ [];
  trace_sinks = 14 ∷ [];
  num_trace_sinks = 1;
  tsgen = 0;
  cpu_id = [];
}

abbrev pub trace_bytes : List ℕ
trace_bytes = 0x80 ∷ 0x81 ∷ 0x82 ∷ 0x83 ∷ 0x84 ∷ 0x85 ∷ 0x86 ∷ 0x87 ∷ 0x88 ∷ 0x89 ∷ 0x8a ∷ 0x8b ∷ []

-- Trace data is given if there is room for all of it.
abbrev pub given : ℕ → List ℕ
given size = if leb 12 size then trace_bytes else []

abbrev pub answer : List Call → Call → ℤ
answer l (mmap size) = pos 0x1000
answer l (mremap addr old_size new_size) = if ltb new_size (2 ^ 63) then pos 0x2000 else minus_one
answer l (get_buffer_unread_bytes d) = pos 12
answer l (get_trace_data d addr size) = pos (length (given size))
answer l (get_buffer_rwp d) = pos (length l)
answer l (waitpid pid) = minus_one
answer l _ = pos 0

abbrev pub written : List Call → Call → List ℕ
written l (get_trace_data d addr size) = given size
written l _ = []

abbrev pub env : Env
env = record {
  headers = headers;
  stderr = pos 2;
  ret = answer;
  out = written;
  version_major = λ v. 4;
  version_is_etmv4 = λ v. true;
  config_init = λ l d. blank_config;
  config_get = λ l d c. c;
  board = λ l. board;
  devices = λ l. devices;
}

remapped :
    (size : ℕ) (b : Bool)
    → ltb size (2 ^ 63) ≡ b
    → MapResult size (if b then pos 0x2000 else minus_one)
remapped size true h = inr (0x2000, refl, refl, ground arith)
remapped size false h = inl refl

pub env-MemoryLaws : MemoryLaws env
env-MemoryLaws = record {
  mremap_lem = λ l addr old_size new_size. remapped new_size (ltb new_size (2 ^ 63)) refl;
}

fits :
    (size : ℕ) (b : Bool)
    → leb 12 size ≡ b
    → DataResult size (pos (length (if b then trace_bytes else []))) (if b then trace_bytes else [])
fits size true h = inr (refl, ground arith)
fits size false h = inr (refl, ground arith)

pub env-DataLaws : DataLaws env
env-DataLaws = record { data_lem = λ l d addr size. fits size (leb 12 size) refl }

-- Three bytes of sixteen are written.
abbrev pub small_buf : Buffer
small_buf = record {
  base = 0x1000;
  size = 16;
  ptr = 0x1003;
  bytes = λ i. if ltb i 3 then i + 1 else 0;
}

abbrev pub no_buf : Buffer
no_buf = record { base = 0; size = 0; ptr = 0; bytes = λ i. 0 }

abbrev pub machine : Machine
machine = record {
  log = [];
  board_name = codes "board";
  board = some board;
  devices = devices;
  udmabuf_num = pos 0;
  trace_cpu = minus_one;
  export_config = false;
  fetcher_on = true;
  etr_ram_addr = 0x70000000;
  etr_ram_size = 0x80000;
  ksight_on = false;
  ksight_ram_addr = 0;
  range_count = pos 0;
  map_info = [];
  trace_id = pos 0x10;
  child_pid = pos 42;
  is_first_trace = false;
  trace_buf = small_buf;
  ksight_buf = no_buf;
  fetcher_ready = false;
  trace_state = running_state;
  trace_event = start_event;
  registration_verbose = pos 0;
}

-- Four CPUs, of which the first is a core of its own, and has the process.
abbrev pub is_token : List Call → Bool
is_token (read_token file ∷ l) = true
is_token _ = false

abbrev pub cores_answer : List Call → Call → ℤ
cores_answer l get_nprocs = pos 4
cores_answer l (cpu_alloc count) = pos 0x5000
cores_answer l (fopen path) = pos 0x6000
cores_answer l (read_token file) = if is_token l then minus_one else pos 2
cores_answer l _ = pos 0

abbrev pub cores_written : List Call → Call → List ℕ
cores_written l (sched_getaffinity pid) = 0 ∷ []
cores_written l (read_token file) = codes "0" ++ 0x0a ∷ []
cores_written l _ = []

abbrev pub cores_env : Env
cores_env = record env { ret = cores_answer; out = cores_written }

-- Four CPUs, and no memory for a set and no /proc.
abbrev pub bare_answer : List Call → Call → ℤ
bare_answer l sysconf_nprocs = pos 4
bare_answer l _ = pos 0

abbrev pub bare_env : Env
bare_env = record env { ret = bare_answer }

-- An environment in which the ETR never starts.
abbrev pub broken_answer : List Call → Call → ℤ
broken_answer l (sink_enable d) = minus_one
broken_answer l (error_count) = pos 1
broken_answer l _ = pos 0

abbrev pub broken_env : Env
broken_env = record env { ret = broken_answer }

-- A process whose maps have one line.
abbrev pub is_line : List Call → Bool
is_line (read_line file ∷ l) = true
is_line _ = false

abbrev pub maps_answer : List Call → Call → ℤ
maps_answer l (fopen path) = pos 0x6000
maps_answer l (read_line file) = if is_line l then minus_one else pos 43
maps_answer l (mmap_file size fd offset) = pos 0x9000
maps_answer l _ = pos 5

abbrev pub maps_written : List Call → Call → List ℕ
maps_written l (read_line file) = codes "400000-452000 r-xp 00000000 08:02 17 /bin/ls" ++ 0x0a ∷ []
maps_written l _ = []

abbrev pub maps_env : Env
maps_env = record env { ret = maps_answer; out = maps_written }
