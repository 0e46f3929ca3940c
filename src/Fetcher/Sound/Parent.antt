-- ===== src/Fetcher/Sound/Parent.antt =====
-- The steps of the parent and of the child keep the invariant.
use ultrasight.Common.{
  ◌≡◌, refl, ap, ◌∙◌, ◌⊎◌, inl, inr, ◌<◌, ◌+◌, ◌*◌, ℕ, pos, negsuc, Bool, true, false, Bool-cases,
  Option, none, ◌==◌, arith,
}
use ultrasight.Machine.{Env, Machine, ready_state, fini_state}
use ultrasight.Tracer.Status.{Report, sigstop}
use ultrasight.Fetcher.World.{
  World, FetcherAt, idle, polling, over, ChildAt, is_running, is_stopped, is_zombie, is_gone,
  MainAt, closing, readying, finishing, joining,
}
use ultrasight.Fetcher.State.{
  is_start, is_suspend, Mild, same-Mild, set_trace_state-Mild, set_trace_state-unsuspended,
  report-event, disable_cs_trace-event, close_tags-event,
}
use ultrasight.Fetcher.Steps.{
  reaped, MainStep, report, close, disable_all, make_ready, finish, join, ChildStep, take_stop,
  exit, die,
}
use ultrasight.Fetcher.Sound.{
  IsSound, Fresh, Calm, looks, runs, is_finished, is_joined, reports_stop,
}

reaped-runs : (c : ChildAt) → runs c ≡ false → runs (reaped c) ≡ false
reaped-runs is_running h = cc
reaped-runs is_stopped h = refl
reaped-runs is_zombie h = refl
reaped-runs is_gone h = refl

-- Without a start signalled, the fetcher may send a SIGSTOP only if it might before.
looks-Mild :
    (a : FetcherAt) (s t : Machine)
    → Mild s t
    → looks a t.trace_event ≡ true
    → looks a s.trace_event ≡ true
looks-Mild idle s t m h = elim (Bool-cases (is_start s.trace_event)) [
  | inl on ↦ on
  | inr off ↦ (let q : is_start t.trace_event ≡ false = m.unstarted off in cc)
]
looks-Mild polling s t m h = h
looks-Mild over s t m h = h
looks-Mild _ s t m h = cc

-- A step of the parent to the state `t`, the child `c`, the report `p` and the place `m`.
parent_moves :
    {w : World} (i : IsSound w) (t : Machine) (c : ChildAt) (p : Option ((n : ℕ) × Report n))
    (m : MainAt)
    → Mild w.shared t
    → (is_suspend t.trace_event ≡ true
        → (is_suspend w.shared.trace_event ≡ true) ⊎ (reports_stop w.pending ≡ true))
    → (reports_stop p ≡ true → reports_stop w.pending ≡ true)
    → (runs w.child ≡ false → runs c ≡ false)
    → (is_joined m ≡ true → is_finished w.fetcher ≡ true)
    → IsSound (record w { shared = t; child = c; pending = p; main = m })
parent_moves {w} i t c p m mild suspends reports still ends = record {
  unresumed = mild.unresumed i.unresumed;
  unstarted = λ q. mild.unstarted (i.unstarted q);
  fresh = λ q.
      let h : Fresh w = i.fresh (looks-Mild w.fetcher w.shared t mild q) in
      let e : is_suspend w.shared.trace_event ≡ false = h.unsuspended in
      let r : reports_stop w.pending ≡ false = h.unreported in
      record {
        unsuspended = elim (Bool-cases (is_suspend t.trace_event)) [
          | inl on ↦ elim (suspends on) [ inl a ↦ cc | inr b ↦ cc ]
          | inr off ↦ off
        ];
        unreported = elim (Bool-cases (reports_stop p)) [
          | inl on ↦ (let b : reports_stop w.pending ≡ true = reports on in cc)
          | inr off ↦ off
        ];
        unsent = h.unsent;
      };
  calm = λ q.
      let h : Calm w = i.calm q in
      record {
        suspended = λ on. elim (suspends on) [
          | inl a ↦ still (h.suspended a)
          | inr b ↦ still (h.reported b)
        ];
        reported = λ on. still (h.reported (reports on));
      };
  paused = λ q. still (i.paused q);
  after_join = ends;
}

-- The same where the event stays.
quiet_moves :
    {w : World} (i : IsSound w) (t : Machine) (c : ChildAt) (p : Option ((n : ℕ) × Report n))
    (m : MainAt)
    → t.trace_event ≡ w.shared.trace_event
    → (reports_stop p ≡ true → reports_stop w.pending ≡ true)
    → (runs w.child ≡ false → runs c ≡ false)
    → (is_joined m ≡ true → is_finished w.fetcher ≡ true)
    → IsSound (record w { shared = t; child = c; pending = p; main = m })
quiet_moves {w} i t c p m e reports still ends =
    parent_moves i t c p m (same-Mild e)
      (λ on. inl (
        let same : is_suspend t.trace_event ≡ is_suspend w.shared.trace_event = ap is_suspend e in
        cc))
      reports still ends

back : (b c : Bool) → (b ≡ false → c ≡ false) → c ≡ true → b ≡ true
back true c h e = refl
back false c h e = (let f : c ≡ false = h refl in cc)

pub main-IsSound :
    {env : Env} {fuel : ℕ} {w v : World} → MainStep env fuel w v → IsSound w → IsSound v
main-IsSound {env} {fuel} (report w word r t m p h e) i =
    elim (report-event env fuel word w.shared t r h e) [
      | inl same ↦
          quiet_moves i t (reaped w.child) none w.main same (λ q. cc) (reaped-runs w.child)
            i.after_join
      | inr (stop, mild) ↦
          let reported : reports_stop w.pending ≡ true = ap reports_stop p ∙ ground arith in
          parent_moves i t (reaped w.child) none w.main mild (λ on. inr reported) (λ q. cc)
            (reaped-runs w.child) i.after_join
    ]
main-IsSound {env} (close w r m p) i =
    quiet_moves i _ (reaped w.child) none closing (close_tags-event env w.shared) (λ q. cc)
      (reaped-runs w.child) (λ q. cc)
main-IsSound (disable_all w (pos n) t m e) i =
    quiet_moves i t w.child w.pending readying (disable_cs_trace-event _ _ _ _ e) (λ q. q) (λ q. q)
      (λ q. cc)
main-IsSound (disable_all w (negsuc n) t m e) i =
    quiet_moves i t w.child w.pending finishing (disable_cs_trace-event _ _ _ _ e) (λ q. q) (λ q. q)
      (λ q. cc)
main-IsSound (make_ready w m) i =
    parent_moves i _ w.child w.pending finishing
      (set_trace_state-Mild ready_state w.shared (λ q. cc))
      (λ on. inl (back _ _ (set_trace_state-unsuspended ready_state w.shared (λ q. cc)) on))
      (λ q. q) (λ q. q) (λ q. cc)
main-IsSound (finish w m) i =
    parent_moves i _ w.child w.pending joining (set_trace_state-Mild fini_state w.shared (λ q. cc))
      (λ on. inl (back _ _ (set_trace_state-unsuspended fini_state w.shared (λ q. cc)) on)) (λ q. q)
      (λ q. q) (λ q. cc)
main-IsSound (join w m f) i =
    quiet_moves i _ w.child w.pending _ refl (λ q. q) (λ q. q) (λ q. ap is_finished f)

-- The child stops running, and there is no SIGSTOP that the fetcher did not send.
ended-IsSound :
    {w : World} (i : IsSound w) (c : ChildAt) (p : Option ((n : ℕ) × Report n)) (b : Bool)
    → runs c ≡ false
    → (w.stopping ≡ false → (reports_stop p ≡ false) × (b ≡ false))
    → IsSound (record w { child = c; pending = p; stopping = b })
ended-IsSound {w} i c p b stopped unsent = record {
  unresumed = i.unresumed;
  unstarted = i.unstarted;
  fresh = λ q.
      let h : Fresh w = i.fresh q in
      let none : (reports_stop p ≡ false) × (b ≡ false) = unsent h.unsent in
      record { unsuspended = h.unsuspended; unreported = none.0; unsent = none.1 };
  calm = λ q. record { suspended = λ on. stopped; reported = λ on. stopped };
  paused = λ q. stopped;
  after_join = i.after_join;
}

other_exit : (code : ℕ) → (code * 256 == sigstop * 256 + 0x7f) ≡ false
other_exit code = ground arith

other_death :
    (sig core : ℕ) → sig < 127 → core < 2 → (sig + core * 128 == sigstop * 256 + 0x7f) ≡ false
other_death sig core g k = ground arith

pub child-IsSound : {w v : World} → ChildStep w v → IsSound w → IsSound v
child-IsSound (take_stop w c s) i = ended-IsSound i is_stopped _ false refl (λ q. absurd (cc))
child-IsSound (exit w code h c) i =
    ended-IsSound i is_zombie _ w.stopping refl (λ q. (other_exit code, q))
child-IsSound (die w sig core g g' k c) i =
    ended-IsSound i is_zombie _ w.stopping refl (λ q. (other_death sig core g' k, q))
