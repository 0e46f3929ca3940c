-- ===== src/Buffer/Trace/Grow.antt =====
-- The growth loop of `fetch_trace`.
use ultrasight.Common.{
  ℕ, zero, suc, ◌+◌, ◌*◌, ◌%◌, ◌^◌, ◌≤◌, ◌<◌, ◌≡◌, refl, inl, inr, minus_one, false, ltb,
  Bool-cases, List, ◌∷◌, ◌==◌, ◌∙◌, arith,
}
use ultrasight.Machine.{Env, Machine, Flow, next, done, fault, bind, Buffer, Call, mremap}
use ultrasight.Buffer.Memory.{used, remain, sub64, add64, map_failed, IsValid}
use ultrasight.Buffer.Laws.{MemoryLaws}
use ultrasight.Buffer.Trace.{grow_trace_buf, double_trace_buf}

-- n doubled k times
abbrev pub scaled : ℕ → ℕ → ℕ
scaled zero n = n
scaled (suc k) n = scaled k (n * 2)

pub scaled_mono : (k : ℕ) {m n : ℕ} → m ≤ n → scaled k m ≤ scaled k n
scaled_mono zero h = h
scaled_mono (suc k) h = scaled_mono k (omega arith)

-- What growing leaves alone.
pub record Same (b c : Buffer) : Type 0 where
  pub valid : IsValid c
  pub used_same : used c ≡ used b
  pub bytes_same : c.bytes ≡ b.bytes

pub Same-trans : {a b c : Buffer} → Same a b → Same b c → Same a c
Same-trans p q = record {
  valid = q.valid;
  used_same = omega (arith, p.used_same, q.used_same);
  bytes_same = cc (p.bytes_same, q.bytes_same);
}

used-moved :
    (b : Buffer) (p n : ℕ)
    → IsValid b
    → b.size ≤ n
    → p + n < 2 ^ 64
    → sub64 (add64 p (used b)) p ≡ used b
used-moved b p n v h fits = omega arith

-- The buffer at an address `p`, twice as large.
pub moved :
    (b : Buffer) (p : ℕ)
    → IsValid b
    → b.size < 2 ^ 62
    → p % 8 ≡ 0
    → p + b.size * 2 % 2 ^ 64 < 2 ^ 64
    → Same b (record b { base = p; size = b.size * 2 % 2 ^ 64; ptr = add64 p (used b) })
moved b p v small al fits = record {
  valid = record {
    base_aligned = al;
    size_aligned = omega arith;
    size_pos = omega arith;
    in_space = fits;
    above = omega arith;
    below = omega arith;
    blank =
        λ i h. v.blank i (omega (arith, used-moved b p (b.size * 2) v (omega arith) (omega arith)));
  };
  used_same = used-moved b p (b.size * 2) v (omega arith) (omega arith);
  bytes_same = refl;
}

-- mremap has just failed.
abbrev pub RanOut : Env → List Call → Type 0
RanOut env m =
    (l : List Call) × (addr old_size new_size : ℕ) × (m ≡ mremap addr old_size new_size ∷ l)
    × (env.ret l (mremap addr old_size new_size) ≡ minus_one)

abbrev Doubled : Env → Machine → Flow (Unit {0}) → Type 0
Doubled env s (next _ t) =
    Same s.trace_buf t.trace_buf
    × (t.trace_buf.size ≡ s.trace_buf.size * 2)
    × (t.devices ≡ s.devices)
Doubled env s (done r t) =
    (r ≡ minus_one) × Same s.trace_buf t.trace_buf × (t.devices ≡ s.devices) × RanOut env t.log
Doubled env s (fault t) = ⊥

pub Same-refl : (b : Buffer) → IsValid b → Same b b
Same-refl b v = record { valid = v; used_same = refl; bytes_same = refl }

pub not_map_failed : (p : ℕ) → p % 8 ≡ 0 → (p == map_failed) ≡ false
not_map_failed p h = ground arith

double-Doubled :
    (env : Env) (s : Machine)
    → MemoryLaws env
    → IsValid s.trace_buf
    → s.trace_buf.size < 2 ^ 62
    → Doubled env s (double_trace_buf env s)
unfolding double_trace_buf
double-Doubled env s laws v small =
    elim (laws.mremap_lem s.log s.trace_buf.base s.trace_buf.size (s.trace_buf.size * 2 % 2 ^ 64)) [
      | inl failed ↦ rw failed (
        refl,
        Same-refl _ v,
        refl,
        (s.log, s.trace_buf.base, s.trace_buf.size, s.trace_buf.size * 2 % 2 ^ 64, refl, failed),
      )
      | inr (p, e, al, fits) ↦
          let whole : p % 2 ^ 64 ≡ p = omega arith in
          rw (e, whole, not_map_failed p al)
            (moved s.trace_buf p v small al fits, omega arith, refl)
    ]

-- What the loop reaches from `s` if `len` bytes are wanted: the room, or a failed mremap.
abbrev pub Grown : Env → Machine → ℕ → Flow (Unit {0}) → Type 0
Grown env s len (next _ t) =
    Same s.trace_buf t.trace_buf × (len ≤ remain t.trace_buf) × (t.devices ≡ s.devices)
Grown env s len (done r t) =
    (r ≡ minus_one) × Same s.trace_buf t.trace_buf × (t.devices ≡ s.devices) × RanOut env t.log
Grown env s len (fault t) = ⊥

remain-eq : (b : Buffer) → IsValid b → remain b + used b ≡ b.size
remain-eq b v = omega arith

Grown-trans :
    (env : Env) (s t : Machine) (len : ℕ) (r : Flow (Unit {0}))
    → Same s.trace_buf t.trace_buf
    → t.devices ≡ s.devices
    → Grown env t len r
    → Grown env s len r
Grown-trans env s t len (next _ u) p e (q, room, d) = (Same-trans p q, room, d ∙ e)
Grown-trans env s t len (done r u) p e (f, q, d, out) = (f, Same-trans p q, d ∙ e, out)
Grown-trans env s t len (fault u) p e g = g

-- After a doubling the loop goes on as from its start.
Grown-after :
    (env : Env) (s : Machine) (len fuel : ℕ) (r : Flow (Unit {0}))
    → Doubled env s r
    → ((t : Machine)
        → Same s.trace_buf t.trace_buf
        → t.trace_buf.size ≡ s.trace_buf.size * 2
        → Grown env t len (grow_trace_buf env fuel len t))
    → Grown env s len (bind r (λ _. grow_trace_buf env fuel len))
Grown-after env s len fuel (next _ t) (same, twice, dev) ih =
    Grown-trans env s t len (grow_trace_buf env fuel len t) same dev (ih t same twice)
Grown-after env s len fuel (done r t) d ih = d
Grown-after env s len fuel (fault t) d ih = d

-- With a size that `fuel` doublings take past the bytes wanted, the loop ends.
pub grow-Grown :
    (env : Env) (fuel len : ℕ) (s : Machine)
    → MemoryLaws env
    → IsValid s.trace_buf
    → used s.trace_buf + len < 2 ^ 62
    → used s.trace_buf + len ≤ scaled fuel s.trace_buf.size
    → Grown env s len (grow_trace_buf env (suc fuel) len s)
unfolding grow_trace_buf
grow-Grown env zero len s laws v small enough =
    let room : ltb (remain s.trace_buf) len ≡ false = ground arith in
    rw room (Same-refl _ v, ground arith, refl)
grow-Grown env (suc fuel) len s laws v small enough =
    elim (Bool-cases (ltb (remain s.trace_buf) len)) [
      | inl more ↦
          let fits : s.trace_buf.size < 2 ^ 62 = ground arith in
          rw more (
            Grown-after env s len (suc fuel) (double_trace_buf env s)
              (double-Doubled env s laws v fits)
              (λ t same twice.
                grow-Grown env fuel len t laws same.valid (omega (arith, same.used_same))
                  (rw (same.used_same, twice) enough)))
      | inr room ↦ rw room (Same-refl _ v, ground arith, refl)
    ]
