-- ===== src/Buffer/Trace/Runs.antt =====
-- Fetches and exports in any order, against a record that only grows.
use ultrasight.Common.{ℕ, ◌≡◌, ℤ, u64, true, false, List, [], ◌∷◌, ◌==◌}
use ultrasight.Machine.{
  Env, Machine, Flow, next, done, fault, Proc, ◌>>=◌, pure, getcwd, fopen, fwrite, fclose, Call,
}
use ultrasight.Buffer.Trace.{fetch_trace, export_trace, export_path}
use ultrasight.Buffer.Trace.Fetch.Record.{pad8, recorded, Holds, Fetches}

pub data Op : Type 0 where
  fetch : Op
  export : (name : List ℕ) → Op

-- The operations one after the other, whatever each returns.
unfoldable pub perform : Env → List Op → Proc (Unit {0})
perform env [] = pure tt
perform env (fetch ∷ ops) = fetch_trace env >>= λ _. perform env ops
perform env (export name ∷ ops) = export_trace env name >>= λ _. perform env ops

-- Where an export after the log `l` writes, and the file that it gets.
abbrev path_after : Env → List ℕ → List Call → List ℕ
path_after env name l = export_path (env.out l getcwd) name

abbrev file_after : Env → List ℕ → List Call → ℤ
file_after env name l = env.ret (getcwd ∷ l) (fopen (path_after env name l))

-- An export, from the log `l` to the log `m`: without a working directory or without the file nothing is
-- written, and else the file gets one text, the record up to padding, and is closed.
pub data Exports (env : Env) (name : List ℕ) (l m : List Call) : Type 0 where
  no_directory : u64 (env.ret l getcwd) == 0 ≡ true → m ≡ getcwd ∷ l → Exports env name l m
  unopened :
      u64 (env.ret l getcwd) == 0 ≡ false
      → u64 (file_after env name l) == 0 ≡ true
      → m ≡ fopen (path_after env name l) ∷ getcwd ∷ l
      → Exports env name l m
  wrote :
      (text : List ℕ)
      → u64 (env.ret l getcwd) == 0 ≡ false
      → u64 (file_after env name l) == 0 ≡ false
      → m
        ≡ fclose (file_after env name l)
          ∷ fwrite (file_after env name l) text
          ∷ fopen (path_after env name l)
          ∷ getcwd
          ∷ l
      → pad8 text ≡ pad8 (recorded env l)
      → Exports env name l m

-- The specification, on the logs between the operations: each fetch appends to the padded record or is
-- refused, and each export writes the record or finds no place for it.
pub data Run (env : Env) : List Call → List Op → List Call → Type 0 where
  stop : {l : List Call} → Run env l [] l
  step_fetch :
      {l m n : List Call} {ops : List Op} (r : ℤ)
      → Fetches env l m r
      → Run env m ops n
      → Run env l (fetch ∷ ops) n
  step_export :
      {l m n : List Call} {ops : List Op} (name : List ℕ)
      → Exports env name l m
      → Run env m ops n
      → Run env l (export name ∷ ops) n

-- How an export ends, from a buffer that holds the record.
abbrev Ends : Env → List ℕ → Machine → Flow ℤ → Type 0
Ends env name s (next r t) =
    (t.trace_buf ≡ s.trace_buf)
    × (recorded env t.log ≡ recorded env s.log)
    × Exports env name s.log t.log
Ends env name s (done r t) = ⊥
Ends env name s (fault t) = ⊥

-- What a run from `s` shows of its end.
abbrev pub Refines : Env → Machine → List Op → Flow (Unit {0}) → Type 0
Refines env s ops (next _ t) = Holds env t × Run env s.log ops t.log
Refines env s ops (done r t) = ⊥
Refines env s ops (fault t) = ⊥
