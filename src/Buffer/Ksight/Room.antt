-- ===== src/Buffer/Ksight/Room.antt =====
-- Before each read there is room for an event.
use ultrasight.Common.{
  ℕ, ◌*◌, ◌%◌, ◌^◌, ◌≤◌, ◌<◌, ◌≡◌, refl, inl, inr, false, ltb, Bool-cases, ◌==◌, arith,
}
use ultrasight.Machine.{Env, Machine, Flow, next, done, fault, when}
use ultrasight.Buffer.Memory.{used, remain, IsValid}
use ultrasight.Buffer.Trace.Grow.{Same, Same-refl, moved}
use ultrasight.Buffer.Ksight.{double_ksight_buf, tag_event_size}
use ultrasight.Buffer.Ksight.Events.{events, reads, DeviceLaws}

-- A buffer with room for an event, and with the same contents.
abbrev pub Roomy : Env → Machine → Flow (Unit {0}) → Type 0
Roomy env s (next _ t) =
    Same s.ksight_buf t.ksight_buf
    × (tag_event_size ≤ remain t.ksight_buf)
    × (tag_event_size ≤ t.ksight_buf.size)
    × (events env t.log ≡ events env s.log)
    × (reads t.log ≡ reads s.log)
Roomy env s (done r t) = ⊥
Roomy env s (fault t) = ⊥

not_null : (p : ℕ) → 0 < p → p == 0 ≡ false
not_null p h = ground arith

pub make_room-Roomy :
    (env : Env) (n : ℕ) (s : Machine)
    → DeviceLaws env n
    → IsValid s.ksight_buf
    → tag_event_size ≤ s.ksight_buf.size
    → used s.ksight_buf < 2 ^ 61
    → Roomy env s (when (ltb (remain s.ksight_buf) tag_event_size) (double_ksight_buf env) s)
unfolding double_ksight_buf
make_room-Roomy env n s laws v big small =
    elim (Bool-cases (ltb (remain s.ksight_buf) tag_event_size)) [
      | inl full ↦
          let b = s.ksight_buf in
          let bounded : b.size < 2 ^ 62 = ground arith in
          let (p, e, above, al, fits) =
            laws.remap_lem s.log b.base b.size (b.size * 2 % 2 ^ 64) (omega (arith, bounded)) in
          let whole : p % 2 ^ 64 ≡ p = omega arith in
          let same = moved b p v bounded al fits in
          rw (full, e, whole, not_null p above)
            (same, omega (arith, same.used_same, bounded, big), omega (arith, bounded), refl, refl)
      | inr room ↦ rw room (Same-refl s.ksight_buf v, ground arith, big, refl, refl)
    ]
