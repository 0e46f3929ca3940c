-- ===== src/Buffer/Trace/Alloc.antt =====
-- `alloc_trace_buf` starts the record.
use ultrasight.Common.{
  ℕ, ◌+◌, ◌%◌, ◌^◌, ◌<◌, ◌≡◌, refl, ap, sym, ◌∙◌, ◌⊎◌, inl, inr, ℤ, pos, minus_one, false, [], ◌==◌,
  arith,
}
use ultrasight.Machine.{Env, Machine, Flow, next, done, fault, mmap, Buffer}
use ultrasight.Buffer.Memory.{used, contents, peek, IsValid, map_failed}
use ultrasight.Buffer.Laws.{MapResult}
use ultrasight.Buffer.Trace.{alloc_trace_buf, default_trace_size}
use ultrasight.Buffer.Trace.Fetch.Record.{pad8, recorded, Holds}

abbrev fresh : ℕ → Buffer
fresh p = record { base = p; size = default_trace_size; ptr = p; bytes = λ _. 0 }

fresh-IsValid : (p : ℕ) → p % 8 ≡ 0 → p + default_trace_size < 2 ^ 64 → IsValid (fresh p)
fresh-IsValid p al fits = record {
  base_aligned = al;
  size_aligned = refl;
  size_pos = omega arith;
  in_space = fits;
  above = omega arith;
  below = omega arith;
  blank = λ i h. refl;
}

fresh_empty : (p : ℕ) → p + default_trace_size < 2 ^ 64 → contents (fresh p) ≡ []
unfolding peek
fresh_empty p fits = let zero_used : used (fresh p) ≡ 0 = omega arith in rw zero_used refl

abbrev pub Allocated : Env → Flow ℤ → Type 0
Allocated env (next r t) = (r ≡ minus_one) ⊎ ((r ≡ pos 0) × Holds env t × (used t.trace_buf ≡ 0))
Allocated env (done r t) = ⊥
Allocated env (fault t) = ⊥

not_failed : (p : ℕ) → p % 8 ≡ 0 → p == map_failed ≡ false
not_failed p h = ground arith

-- If nothing was read before, and mmap answers as documented, `alloc_trace_buf` returns -1, or 0 with a
-- buffer that holds the empty record and has no bytes in use.
pub alloc_trace_buf-Allocated :
    (env : Env) (s : Machine)
    → MapResult default_trace_size (env.ret s.log (mmap default_trace_size))
    → recorded env s.log ≡ []
    → Allocated env (alloc_trace_buf env s)
unfolding alloc_trace_buf
alloc_trace_buf-Allocated env s (inl failed) start = rw failed (inl refl)
alloc_trace_buf-Allocated env s (inr (p, e, al, fits)) start =
    let whole : p % 2 ^ 64 ≡ p = omega arith in
    rw (e, whole, not_failed p al)
      (inr (
        refl,
        record { valid = fresh-IsValid p al fits; held = ap pad8 (fresh_empty p fits ∙ sym start) },
        omega arith,
      ))
