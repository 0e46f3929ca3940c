-- ===== src/Buffer/Trace/Fetch/Record.antt =====
-- The trace buffer as a record of all trace read: a list of bytes to which each fetch appends.
use ultrasight.Common.{
  ℕ, zero, suc, ◌+◌, ◌-◌, ◌%◌, ◌^◌, ◌≤◌, ◌<◌, ◌≡◌, refl, ap, sym, ◌∙◌, ℤ, pos, minus_one, List, [],
  ◌∷◌, ◌++◌, length, replicate, length-append, length-replicate, append-nil, ltb, arith,
}
use ultrasight.Machine.{
  Env, Machine, Flow, next, done, fault, bind, Device, Buffer, Call, mutex_lock, mremap, after,
  mutex_unlock, trace_mutex, get_buffer_unread_bytes, get_trace_data, empty_trace_buffer, fwrite,
}
use ultrasight.Machine.Keeps.{Keeps, Ignores, keeping, Keeps->>, Keeps-when}
use ultrasight.Buffer.Memory.{used, remain, peek, contents, IsValid}
use ultrasight.Buffer.Memory.Align.{aligned, padding, used-aligned, padding-lt, aligned-IsValid}
use ultrasight.Buffer.Laws.{MemoryLaws}
use ultrasight.Buffer.Trace.{fetch_trace, read_trace, grow_trace_buf, double_trace_buf, growth_fuel}
use ultrasight.Buffer.Trace.Grow.{grow-Grown, Grown, RanOut, Same}
use ultrasight.Buffer.Trace.Fetch.{
  used-filled, filled-IsValid, contents-filled, padded, contents-Same, enough_fuel, unlocked,
}

-- The zero bytes up to the next multiple of eight.
abbrev pub pad8 : List ℕ → List ℕ
pad8 xs = xs ++ replicate ((8 - length xs % 8) % 8) 0

-- The trace that a log of calls has read: each read appends to what was read before, padded.
abbrev pub recorded : Env → List Call → List ℕ
recorded env [] = []
recorded env (get_trace_data d addr size ∷ l) =
    pad8 (recorded env l) ++ env.out l (get_trace_data d addr size)
recorded env (_ ∷ l) = recorded env l

length-contents : (mem : ℕ → ℕ) (off n : ℕ) → length (peek mem off n) ≡ n
unfolding peek
length-contents mem off zero = refl
length-contents mem off (suc n) = ap suc (length-contents mem (off + 1) n)

-- Aligning the write pointer pads the contents to a multiple of eight bytes.
pub padded-pad8 : (b : Buffer) → IsValid b → padded b ≡ pad8 (contents b)
padded-pad8 b v =
    let skipped : padding b ≡ (8 - length (contents b) % 8) % 8 =
      omega (arith, length-contents b.bytes 0 (used b)) in
    ap (λ n. contents b ++ replicate n 0) skipped

-- What a log of calls has written to files.
abbrev pub exported : List Call → List (List ℕ)
exported [] = []
exported (fwrite file content ∷ l) = content ∷ exported l
exported (_ ∷ l) = exported l

-- How often it has read trace.
abbrev pub trace_reads : List Call → ℕ
trace_reads [] = 0
trace_reads (get_trace_data d addr size ∷ l) = suc (trace_reads l)
trace_reads (_ ∷ l) = trace_reads l

module _ (env : Env) where
  abbrev record_of : Machine → List ℕ × List (List ℕ) × ℕ
  record_of s = (recorded env s.log, exported s.log, trace_reads s.log)

  remap-Ignores : (addr old_size new_size : ℕ) → Ignores record_of (mremap addr old_size new_size)
  remap-Ignores addr old_size new_size = record { ignores = λ s. refl }

  double-Keeps : Keeps record_of (double_trace_buf env)
  unfolding double_trace_buf
  double-Keeps = search (keeping, remap-Ignores) depth 30

  grow-Keeps : (fuel len : ℕ) → Keeps record_of (grow_trace_buf env fuel len)
  unfolding grow_trace_buf
  grow-Keeps zero len = record { keeps = λ s. refl }
  grow-Keeps (suc fuel) len = record {
    keeps = λ s.
        (Keeps-when (ltb (remain s.trace_buf) len)
            (Keeps->> double-Keeps (grow-Keeps fuel len))).keeps
          s;
  }

  -- The buffer holds what was recorded, up to the padding behind it.
  pub record Holds (s : Machine) : Type 0 where
    pub valid : IsValid s.trace_buf
    pub held : pad8 (contents s.trace_buf) ≡ pad8 (recorded env s.log)

-- What is relied on of the trace sink: the unread bytes are counted, and a read gives bytes that fit,
-- both by an int that is not negative.
pub record SinkLaws (env : Env) : Type 0 where
  pub unread_lem :
      (l : List Call) (d : Device)
      → (len : ℕ) × (env.ret l (get_buffer_unread_bytes d) ≡ pos len) × (len < 2 ^ 31)
  pub read_lem :
      (l : List Call) (d : Device) (addr size : ℕ)
      → let content = env.out l (get_trace_data d addr size) in
        (env.ret l (get_trace_data d addr size) ≡ pos (length content))
        × (length content ≤ size)
        × (length content < 2 ^ 31)

-- A fetch with result `r`, from the log `l` to the log `m`: it is refused where mremap has failed, and
-- nothing is read, or it reads once, and the bytes are appended to the padded record. It writes no file.
pub data Fetches (env : Env) (l m : List Call) : ℤ → Type 0 where
  refused :
      (k : List Call)
      → m ≡ mutex_unlock trace_mutex ∷ k
      → RanOut env k
      → recorded env m ≡ recorded env l
      → trace_reads m ≡ trace_reads l
      → exported m ≡ exported l
      → Fetches env l m minus_one
  appended :
      (k : List Call) (d : Device) (addr size : ℕ)
      → m ≡ mutex_unlock trace_mutex ∷ empty_trace_buffer d ∷ get_trace_data d addr size ∷ k
      → recorded env m ≡ pad8 (recorded env l) ++ env.out k (get_trace_data d addr size)
      → trace_reads m ≡ suc (trace_reads l)
      → exported m ≡ exported l
      → Fetches env l m (pos 0)

-- A fetch from `s`, seen from its record: it returns, and the room that it takes is bounded.
abbrev pub Advances : Env → Machine → Flow ℤ → Type 0
Advances env s (next r t) =
    Holds env t × (used t.trace_buf ≤ used s.trace_buf + 2 ^ 32) × Fetches env s.log t.log r
Advances env s (done r t) = ⊥
Advances env s (fault t) = ⊥

length-pad8 : (xs : List ℕ) → length (pad8 xs) % 8 ≡ 0
length-pad8 xs = omega (
  arith,
  length-append xs (replicate ((8 - length xs % 8) % 8) 0),
  length-replicate {A = ℕ} ((8 - length xs % 8) % 8) 0,
)

pub pad8_twice : (xs : List ℕ) → pad8 (pad8 xs) ≡ pad8 xs
pad8_twice xs =
    let none_left : (8 - length (pad8 xs) % 8) % 8 ≡ 0 = omega (arith, length-pad8 xs) in
    ap (λ n. pad8 xs ++ replicate n 0) none_left ∙ append-nil (pad8 xs)

-- The state in which the growth loop is left, from a buffer `b` that held the record `xs`.
read-Advances :
    (env : Env) (s t : Machine)
    → SinkLaws env
    → Holds env s
    → Same (aligned s.trace_buf) t.trace_buf
    → record_of env t ≡ record_of env s
    → Advances env s (unlocked (read_trace env t))
unfolding read_trace
read-Advances env s t laws h same kept =
    let (good, fits, small) =
      laws.read_lem t.log t.devices.etb t.trace_buf.ptr (remain t.trace_buf) in
    rw good (
      record {
        valid = filled-IsValid t.trace_buf chunk same.valid fits;
        held = ap pad8 (
            contents-filled t.trace_buf chunk same.valid fits
            ∙ ap (λ r. r ++ chunk) (held_before ∙ ap pad8 (sym same_record)));
      },
      omega (
        arith,
        used-filled t.trace_buf chunk same.valid fits,
        same.used_same,
        used-aligned s.trace_buf h.valid,
        padding-lt s.trace_buf h.valid,
      ),
      appended t.log t.devices.etb t.trace_buf.ptr (remain t.trace_buf) refl
          (ap (λ xs. pad8 xs ++ chunk) same_record) (ap (λ r. suc r.2) kept) (ap (λ r. r.1) kept),
    )
  where
    chunk : List ℕ
    chunk = env.out t.log (get_trace_data t.devices.etb t.trace_buf.ptr (remain t.trace_buf))

    same_record : recorded env t.log ≡ recorded env s.log
    same_record = ap (λ r. r.0) kept

    held_before : contents t.trace_buf ≡ pad8 (recorded env s.log)
    held_before =
        contents-Same s.trace_buf t.trace_buf h.valid same
        ∙ padded-pad8 s.trace_buf h.valid
        ∙ h.held

-- Where mremap failed, only the padding was added.
kept-Holds :
    (env : Env) (s t : Machine)
    → Holds env s
    → Same (aligned s.trace_buf) t.trace_buf
    → recorded env t.log ≡ recorded env s.log
    → Holds env t
kept-Holds env s t h same kept = record {
  valid = same.valid;
  held =
      ap pad8 (contents-Same s.trace_buf t.trace_buf h.valid same ∙ padded-pad8 s.trace_buf h.valid)
      ∙ pad8_twice (contents s.trace_buf)
      ∙ h.held
      ∙ ap pad8 (sym kept);
}

finish-Advances :
    (env : Env) (s u : Machine) (len : ℕ) (r : Flow (Unit {0}))
    → SinkLaws env
    → Holds env s
    → u.trace_buf ≡ aligned s.trace_buf
    → Grown env u len r
    → record_of env (after r) ≡ record_of env s
    → Advances env s (unlocked (bind r (λ _. read_trace env)))
finish-Advances env s u len (next _ t) laws h e (same, room, dev) kept =
    read-Advances env s t laws h (rw e at same) kept
finish-Advances env s u len (done r t) laws h e (f, same, dev, out) kept =
    let same' : Same (aligned s.trace_buf) t.trace_buf = rw e at same in
    (
      kept-Holds env s (record t { log = mutex_unlock trace_mutex ∷ t.log }) h same'
          (ap (λ r. r.0) kept),
      omega (
        arith,
        same'.used_same,
        used-aligned s.trace_buf h.valid,
        padding-lt s.trace_buf h.valid,
      ),
      rw f (refused t.log refl out (ap (λ r. r.0) kept) (ap (λ r. r.2) kept) (ap (λ r. r.1) kept)),
    )
finish-Advances env s u len (fault t) laws h e g kept = g

pub fetch_trace-Advances :
    (env : Env) (s : Machine)
    → MemoryLaws env
    → SinkLaws env
    → Holds env s
    → used s.trace_buf < 2 ^ 61
    → Advances env s (fetch_trace env s)
unfolding fetch_trace
fetch_trace-Advances env s memory laws h small =
    let (len, e, int) = laws.unread_lem (mutex_lock trace_mutex ∷ s.log) s.devices.etb in
    let whole : len % 2 ^ 64 ≡ len = omega arith in
    let bounded : used (aligned s.trace_buf) + len < 2 ^ 62 =
      omega (arith, used-aligned s.trace_buf h.valid, padding-lt s.trace_buf h.valid) in
    rw (e, whole)
      (finish-Advances env s started len (grow_trace_buf env growth_fuel len started) laws h refl
        (grow-Grown env 63 len started memory (aligned-IsValid s.trace_buf h.valid) bounded
          (enough_fuel _ s.trace_buf.size bounded h.valid.size_pos))
        ((grow-Keeps env growth_fuel len).keeps started))
  where
    started : Machine
    started = record s {
      log = get_buffer_unread_bytes s.devices.etb ∷ mutex_lock trace_mutex ∷ s.log;
      trace_buf = aligned s.trace_buf;
    }
