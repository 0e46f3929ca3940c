-- ===== src/Fetcher/Sound/Worker.antt =====
-- The fetcher's steps keep the invariant.
use ultrasight.Common.{◌≡◌, refl, ap, ◌∙◌, inl, inr, ℕ, pos, negsuc, Bool, true, false, arith}
use ultrasight.Machine.{Env, Machine, TraceEvent, start_event, after}
use ultrasight.Fetcher.World.{World, FetcherAt, idle, fetching, enabling, resuming, leaving}
use ultrasight.Fetcher.Worker.{leave}
use ultrasight.Fetcher.State.{
  is_resume, is_start, is_suspend, fetch_trace-event, enable_cs_trace-event, disable_cs_trace-event,
  leave-event,
}
use ultrasight.Fetcher.Steps.{
  FetcherStep, begin_polling, quit, poll, lose, stop_child, see_suspend, disable, fetch, enable,
  resume_child, see_resume, fetch_last, go_idle,
}
use ultrasight.Fetcher.Sound.{
  IsSound, Fresh, is_pausing, is_awaiting, is_past, looks, is_finished, is_joined, reports_stop,
}

-- The parent is not past the join while the fetcher has not returned.
not_joined :
    {w : World} (i : IsSound w) (b : Bool)
    → is_finished w.fetcher ≡ false
    → is_joined w.main ≡ true
    → b ≡ true
not_joined {w} i b f j = (let e : is_finished w.fetcher ≡ true = i.after_join j in cc)

looks-idle :
    (w : World)
    → w.fetcher ≡ idle
    → w.shared.trace_event ≡ start_event
    → looks w.fetcher w.shared.trace_event ≡ true
looks-idle w f e = ap (λ a. looks a w.shared.trace_event) f ∙ ap is_start e

looks-at :
    (w : World) {a : FetcherAt}
    → w.fetcher ≡ a
    → looks a w.shared.trace_event ≡ true
    → looks w.fetcher w.shared.trace_event ≡ true
looks-at w f e = ap (λ b. looks b w.shared.trace_event) f ∙ e

-- A part of the collection, which ends at `a` in the state `t`.
collected-IsSound :
    {w : World} (i : IsSound w) (t : Machine) (a : FetcherAt)
    → t.trace_event ≡ w.shared.trace_event
    → is_pausing w.fetcher ≡ true
    → is_past w.fetcher ≡ true
    → is_finished w.fetcher ≡ false
    → ((e : TraceEvent) → looks a e ≡ false)
    → is_awaiting a ≡ false
    → IsSound (record w { shared = t; fetcher = a })
collected-IsSound {w} i t a e pausing past unfinished unlooking unawaiting = record {
  unresumed = ap is_resume e ∙ i.unresumed;
  unstarted = λ p. ap is_start e ∙ i.unstarted past;
  fresh = λ p. absurd (let q : looks a t.trace_event ≡ false = unlooking t.trace_event in cc);
  calm = λ p. absurd (cc);
  paused = λ p. i.paused pausing;
  after_join = not_joined i (is_finished a) unfinished;
}

pub fetcher-IsSound :
    {env : Env} {threshold : ℕ} {w v : World}
    → FetcherStep env threshold w v
    → IsSound w
    → IsSound v
fetcher-IsSound (begin_polling w f e) i = record {
  unresumed = i.unresumed;
  unstarted = λ p. cc;
  fresh = λ p.
      let h : Fresh w = i.fresh (looks-idle w f e) in
      record { unsuspended = h.unsuspended; unreported = h.unreported; unsent = h.unsent };
  calm = λ p. absurd (cc);
  paused = λ p. cc;
  after_join = not_joined i false (ap is_finished f);
}
fetcher-IsSound (quit w f e) i = record {
  unresumed = i.unresumed;
  unstarted = λ p. cc;
  fresh = λ p. absurd (cc);
  calm = λ p. absurd (cc);
  paused = λ p. cc;
  after_join = λ p. refl;
}
fetcher-IsSound (poll w true f c o) i = record {
  unresumed = i.unresumed;
  unstarted = λ p. cc;
  fresh = λ p.
      let h : Fresh w = i.fresh (looks-at w f refl) in
      record { unsuspended = h.unsuspended; unreported = h.unreported; unsent = h.unsent };
  calm = λ p. absurd (cc);
  paused = λ p. cc;
  after_join = not_joined i false (ap is_finished f);
}
fetcher-IsSound (poll w false f c o) i = record {
  unresumed = i.unresumed;
  unstarted = λ p. cc;
  fresh = λ p.
      let h : Fresh w = i.fresh (looks-at w f refl) in
      record { unsuspended = h.unsuspended; unreported = h.unreported; unsent = h.unsent };
  calm = λ p. absurd (cc);
  paused = λ p. cc;
  after_join = not_joined i false (ap is_finished f);
}
fetcher-IsSound (lose w f c) i = record {
  unresumed = i.unresumed;
  unstarted = λ p. cc;
  fresh = λ p. absurd (cc);
  calm = λ p. absurd (cc);
  paused = λ p. cc;
  after_join = not_joined i false (ground arith);
}
fetcher-IsSound (stop_child w f c) i = record {
  unresumed = i.unresumed;
  unstarted = λ p. cc;
  fresh = λ p. absurd (cc);
  calm = λ p.
      let h : Fresh w = i.fresh (looks-at w f refl) in
      let e : is_suspend w.shared.trace_event ≡ false = h.unsuspended in
      let r : reports_stop w.pending ≡ false = h.unreported in
      record { suspended = λ q. cc; reported = λ q. cc };
  paused = λ p. cc;
  after_join = not_joined i false (ap is_finished f);
}
fetcher-IsSound (see_suspend w f e) i = record {
  unresumed = i.unresumed;
  unstarted = λ p. ap is_start e;
  fresh = λ p. absurd (cc);
  calm = λ p. absurd (cc);
  paused = λ p. (i.calm (ap is_awaiting f)).suspended (ap is_suspend e);
  after_join = not_joined i false (ap is_finished f);
}
fetcher-IsSound (disable w (pos n) t f e) i =
    collected-IsSound i t fetching (disable_cs_trace-event _ _ _ _ e) (ap is_pausing f)
      (ap is_past f) (ap is_finished f) (λ e. refl) refl
fetcher-IsSound (disable w (negsuc n) t f e) i =
    collected-IsSound i t leaving (disable_cs_trace-event _ _ _ _ e) (ap is_pausing f)
      (ap is_past f) (ap is_finished f) (λ e. refl) refl
fetcher-IsSound (fetch w (pos n) t f e) i =
    collected-IsSound i t enabling (fetch_trace-event _ _ _ e) (ap is_pausing f) (ap is_past f)
      (ap is_finished f) (λ e. refl) refl
fetcher-IsSound (fetch w (negsuc n) t f e) i =
    collected-IsSound i t leaving (fetch_trace-event _ _ _ e) (ap is_pausing f) (ap is_past f)
      (ap is_finished f) (λ e. refl) refl
fetcher-IsSound (enable w (pos n) t f e) i =
    collected-IsSound i t resuming (enable_cs_trace-event _ _ _ _ e) (ap is_pausing f)
      (ap is_past f) (ap is_finished f) (λ e. refl) refl
fetcher-IsSound (enable w (negsuc n) t f e) i =
    collected-IsSound i t leaving (enable_cs_trace-event _ _ _ _ e) (ap is_pausing f) (ap is_past f)
      (ap is_finished f) (λ e. refl) refl
fetcher-IsSound (resume_child w f c) i = record {
  unresumed = i.unresumed;
  unstarted = λ p. cc;
  fresh = λ p. absurd (cc);
  calm = λ p. absurd (cc);
  paused = λ p. cc;
  after_join = not_joined i false (ap is_finished f);
}
fetcher-IsSound (see_resume w f e) i = absurd (
    let r : is_resume w.shared.trace_event ≡ true = ap is_resume e in
    let u : is_resume w.shared.trace_event ≡ false = i.unresumed in cc)
fetcher-IsSound (fetch_last w r t f (inl v) e) i = record {
  unresumed = ap is_resume (fetch_trace-event _ _ _ e) ∙ i.unresumed;
  unstarted = λ p. ap is_start (fetch_trace-event _ _ _ e) ∙ ap is_start v;
  fresh = λ p. absurd (cc);
  calm = λ p. absurd (cc);
  paused = λ p. cc;
  after_join = not_joined i false (ap is_finished f);
}
fetcher-IsSound (fetch_last w r t f (inr v) e) i = record {
  unresumed = ap is_resume (fetch_trace-event _ _ _ e) ∙ i.unresumed;
  unstarted = λ p. ap is_start (fetch_trace-event _ _ _ e) ∙ ap is_start v;
  fresh = λ p. absurd (cc);
  calm = λ p. absurd (cc);
  paused = λ p. cc;
  after_join = not_joined i false (ap is_finished f);
}
fetcher-IsSound (go_idle w f) i = record {
  unresumed = ap is_resume (leave-event w.shared) ∙ i.unresumed;
  unstarted = λ p. cc;
  fresh = λ p. absurd (
      let q : is_start w.shared.trace_event ≡ false = i.unstarted (ap is_past f) in
      let same : is_start (after (leave w.shared)).trace_event ≡ is_start w.shared.trace_event =
        ap is_start (leave-event w.shared) in
      cc);
  calm = λ p. absurd (cc);
  paused = λ p. cc;
  after_join = not_joined i false (ap is_finished f);
}
