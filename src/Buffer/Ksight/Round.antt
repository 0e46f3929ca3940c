-- ===== src/Buffer/Ksight/Round.antt =====
-- One round of `fetch_ksight_events`, the body of its loop.
use ultrasight.Common.{
  ℕ, suc, ◌+◌, ◌^◌, ◌≤◌, ◌<◌, ◌≡◌, refl, ap, sym, ◌∙◌, ◌⊎◌, inl, inr, ℤ, pos, negsuc, minus_one,
  u64, is_neg, is_nonzero, is_positive, true, false, Bool-cases, ltb, leb, List, [], ◌∷◌, ◌++◌,
  length, append-nil, ◌==◌, arith,
}
use ultrasight.Machine.{
  Env, Machine, Flow, next, done, fault, bind, Call, read_file, get_errno, when,
}
use ultrasight.Buffer.Memory.{used, remain, peek, contents, IsValid}
use ultrasight.Buffer.Trace.Fetch.{filled, used-filled, filled-IsValid, contents-filled}
use ultrasight.Buffer.Ksight.{double_ksight_buf, read_once, read_events, tag_event_size, eagain}
use ultrasight.Buffer.Ksight.Events.{events, reads, DeviceLaws}
use ultrasight.Buffer.Ksight.Room.{make_room-Roomy, Roomy}

-- From `s` to `t` the buffer and the log have gained the same bytes.
pub record Gains (env : Env) (s t : Machine) : Type 0 where
  pub bytes : List ℕ
  pub valid : IsValid t.ksight_buf
  pub held : contents t.ksight_buf ≡ contents s.ksight_buf ++ bytes
  pub read : events env t.log ≡ events env s.log ++ bytes

-- The end of the loop: with 0 after a read of 0 bytes or one that failed with EAGAIN, and with -1 after
-- one that failed otherwise.
abbrev pub Ended : Env → Machine → ℤ → Type 0
Ended env t r =
    (l : List Call) × (fd : ℤ) × (size : ℕ) × let asked = read_file fd size ∷ l in
      ((r ≡ pos 0) × (t.log ≡ asked) × (env.ret l (read_file fd size) ≡ pos 0))
      ⊎ ((t.log ≡ get_errno ∷ asked)
          × (is_neg (env.ret l (read_file fd size)) ≡ true)
          × ((r ≡ pos 0) × (u64 (env.ret asked get_errno) == u64 eagain ≡ true)
              ⊎ (r ≡ minus_one) × (u64 (env.ret asked get_errno) == u64 eagain ≡ false)))

-- One round: it gains some bytes with one read, or ends the loop.
abbrev pub Round : Env → ℕ → Machine → Flow (Unit {0}) → Type 0
Round env n s (next _ t) =
    Gains env s t
    × (used t.ksight_buf < used s.ksight_buf + 2 ^ 32)
    × (tag_event_size ≤ t.ksight_buf.size)
    × (reads t.log ≡ suc (reads s.log))
    × (reads s.log < n)
Round env n s (done r t) = Gains env s t × Ended env t r
Round env n s (fault t) = ⊥

read_once-Round :
    (env : Env) (n : ℕ) (s t : Machine) (fd : ℤ)
    → DeviceLaws env n
    → used s.ksight_buf < 2 ^ 61
    → Roomy env s (next tt t)
    → Round env n s (read_once env fd t)
unfolding read_once
read_once-Round env n s t fd laws small (same, room, big, same_events, same_reads) =
    elim (laws.read_lem t.log fd (remain t.ksight_buf)) [
      | inl (k, bad) ↦ elim (Bool-cases (u64 (env.ret asked get_errno) == u64 eagain)) [
        | inl again ↦
            rw (bad, again)
              (
                unread bad,
                (t.log, fd, remain t.ksight_buf, inr (refl, rw bad refl, inl (refl, again))),
              )
        | inr other ↦
            rw (bad, other)
              (
                unread bad,
                (t.log, fd, remain t.ksight_buf, inr (refl, rw bad refl, inr (refl, other))),
              )
      ]
      | inr (good, fits, int) ↦ elim (Bool-cases (is_nonzero (pos (length chunk)))) [
        | inl more ↦
            rw (good, more)
              (
                taken good fits,
                omega (arith, used-filled t.ksight_buf chunk same.valid fits, same.used_same),
                big,
                ap suc same_reads,
                before_dry (rw good more),
              )
        | inr none ↦
            rw (good, none)
              (
                emptied good none,
                (
                  t.log,
                  fd,
                  remain t.ksight_buf,
                  inl (refl, refl, good ∙ ap (λ xs. pos (length xs)) (no_bytes chunk none)),
                ),
              )
      ]
    ]
  where
    chunk : List ℕ
    chunk = env.out t.log (read_file fd (remain t.ksight_buf))

    asked : List Call
    asked = read_file fd (remain t.ksight_buf) ∷ t.log

    held_before : contents t.ksight_buf ≡ contents s.ksight_buf
    held_before =
        ap (peek t.ksight_buf.bytes 0) same.used_same
        ∙ ap (λ m. peek m 0 (used s.ksight_buf)) same.bytes_same

    unread :
        {k : ℕ}
        → env.ret t.log (read_file fd (remain t.ksight_buf)) ≡ negsuc k
        → Gains env s (record t { log = get_errno ∷ asked })
    unread bad = record {
      bytes = [];
      valid = same.valid;
      held = held_before ∙ sym (append-nil (contents s.ksight_buf));
      read = rw bad (ap (λ xs. xs ++ []) same_events);
    }

    read_events_lem :
        env.ret t.log (read_file fd (remain t.ksight_buf)) ≡ pos (length chunk)
        → events env asked ≡ events env s.log ++ chunk
    read_events_lem good = rw good (ap (λ xs. xs ++ chunk) same_events)

    -- The bytes read are behind the contents.
    taken :
        env.ret t.log (read_file fd (remain t.ksight_buf)) ≡ pos (length chunk)
        → length chunk ≤ remain t.ksight_buf
        → Gains env s (record t { log = asked; ksight_buf = filled t.ksight_buf chunk })
    taken good fits = record {
      bytes = chunk;
      valid = filled-IsValid t.ksight_buf chunk same.valid fits;
      held =
          contents-filled t.ksight_buf chunk same.valid fits ∙ ap (λ xs. xs ++ chunk) held_before;
      read = read_events_lem good;
    }

    no_bytes : (xs : List ℕ) → is_nonzero (pos (length xs)) ≡ false → xs ≡ []
    no_bytes [] e = refl
    no_bytes (x ∷ xs) e = cc

    emptied :
        env.ret t.log (read_file fd (remain t.ksight_buf)) ≡ pos (length chunk)
        → is_nonzero (pos (length chunk)) ≡ false
        → Gains env s (record t { log = asked })
    emptied good none = record {
      bytes = [];
      valid = same.valid;
      held = held_before ∙ sym (append-nil (contents s.ksight_buf));
      read = read_events_lem good ∙ ap (λ xs. events env s.log ++ xs) (no_bytes chunk none);
    }

    -- A read that gave bytes was not past the last that does.
    before_dry :
        is_positive (env.ret t.log (read_file fd (remain t.ksight_buf))) ≡ true → reads s.log < n
    before_dry more = elim (Bool-cases (leb n (reads t.log))) [
      | inl past ↦ let dry = laws.dry_lem t.log fd (remain t.ksight_buf) (ground arith) in cc
      | inr early ↦ ground (arith, same_reads)
    ]

pub read_events-Round :
    (env : Env) (n : ℕ) (s : Machine) (fd : ℤ)
    → DeviceLaws env n
    → IsValid s.ksight_buf
    → tag_event_size ≤ s.ksight_buf.size
    → used s.ksight_buf < 2 ^ 61
    → Round env n s (read_events env fd s)
unfolding read_events
read_events-Round env n s fd laws v big small =
    go (when (ltb (remain s.ksight_buf) tag_event_size) (double_ksight_buf env) s)
      (make_room-Roomy env n s laws v big small)
  where
    go : (f : Flow (Unit {0})) → Roomy env s f → Round env n s (bind f (λ _. read_once env fd))
    go (next _ t) h = read_once-Round env n s t fd laws small h
    go (done r t) h = absurd h
    go (fault t) h = h
