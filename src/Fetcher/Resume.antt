-- ===== src/Fetcher/Resume.antt =====
-- The fetcher's pauses of the child, and how they end.
use ultrasight.Common.{◌≡◌, ◌≢◌, refl, ◌∙◌, ap, inl, inr, ℕ, true, false}
use ultrasight.Machine.{Env}
use ultrasight.Fetcher.World.{World, Launched, awaiting_resume, is_running, joined}
use ultrasight.Fetcher.State.{is_resume}
use ultrasight.Fetcher.Steps.{
  FetcherStep, begin_polling, quit, poll, lose, stop_child, see_suspend, disable, fetch, enable,
  resume_child, see_resume, fetch_last, go_idle, MainStep, report, close, disable_all, make_ready,
  finish, join, ChildStep, take_stop, exit, die, Step, by_fetcher, by_main, by_child, Steps, stay,
  ◌◅◌,
}
use ultrasight.Fetcher.Sound.{IsSound, Launched-IsSound, is_pausing, runs, is_finished, is_joined}
use ultrasight.Fetcher.Sound.Reached.{Steps-IsSound, Step-IsSound}

-- From the launch on, however the threads and the child take turns, and however late the SIGSTOP reaches
-- the child, the child does not run from when the fetcher has seen the suspension until it sends the
-- SIGCONT: while the tracing is disabled, the trace fetched, and the tracing enabled again.
pub Steps-paused :
    (env : Env) (fuel threshold : ℕ) {w v : World}
    → Launched w
    → Steps env fuel threshold w v
    → is_pausing v.fetcher ≡ true
    → v.child ≢ is_running
Steps-paused env fuel threshold {w} {v} l xs p e =
    let h : runs v.child ≡ false = (Steps-IsSound xs (Launched-IsSound w l)).paused p in cc

waits :
    {env : Env} {threshold : ℕ} {w v : World}
    → FetcherStep env threshold w v
    → is_resume w.shared.trace_event ≡ false
    → w.fetcher ≢ awaiting_resume
waits (begin_polling w h e) u f = cc
waits (quit w h e) u f = cc
waits (poll w reached h c o) u f = cc
waits (lose w (inl h) c) u f = cc
waits (lose w (inr (inl h)) c) u f = cc
waits (lose w (inr (inr h)) c) u f = cc
waits (stop_child w h c) u f = cc
waits (see_suspend w h e) u f = cc
waits (disable w r t h e) u f = cc
waits (fetch w r t h e) u f = cc
waits (enable w r t h e) u f = cc
waits (resume_child w h c) u f = cc
waits (see_resume w h e) u f = let r : is_resume w.shared.trace_event ≡ true = ap is_resume e in cc
waits (fetch_last w r t h v e) u f = cc
waits (go_idle w h) u f = cc

main_leaves : {env : Env} {fuel : ℕ} {w v : World} → MainStep env fuel w v → v.fetcher ≡ w.fetcher
main_leaves (report w word r t m p h e) = refl
main_leaves (close w r m p) = refl
main_leaves (disable_all w r t m e) = refl
main_leaves (make_ready w m) = refl
main_leaves (finish w m) = refl
main_leaves (join w m f) = refl

child_leaves : {w v : World} → ChildStep w v → v.fetcher ≡ w.fetcher
child_leaves (take_stop w c s) = refl
child_leaves (exit w code h c) = refl
child_leaves (die w sig core g g' k c) = refl

one_move :
    {env : Env} {fuel threshold : ℕ} {w v : World}
    → Step env fuel threshold w v
    → is_resume w.shared.trace_event ≡ false
    → w.fetcher ≡ awaiting_resume
    → v.fetcher ≡ awaiting_resume
one_move (by_fetcher w v x) u f = absurd (waits x u f)
one_move (by_main w v x) u f = main_leaves x ∙ f
one_move (by_child w v x) u f = child_leaves x ∙ f

stuck :
    {env : Env} {fuel threshold : ℕ} {w v : World}
    → Steps env fuel threshold w v
    → IsSound w
    → w.fetcher ≡ awaiting_resume
    → v.fetcher ≡ awaiting_resume
stuck (stay w) i f = f
stuck (x ◅ xs) i f = stuck xs (Step-IsSound x i) (one_move x i.unresumed f)

-- From the launch on, once the fetcher has continued the child and waits for the resumption to be
-- seen, it waits for ever, and the parent never gets past `pthread_join`.
pub Steps-stuck :
    (env : Env) (fuel threshold : ℕ) {w u v : World}
    → Launched w
    → Steps env fuel threshold w u
    → u.fetcher ≡ awaiting_resume
    → Steps env fuel threshold u v
    → (v.fetcher ≡ awaiting_resume) × (v.main ≢ joined)
Steps-stuck env fuel threshold {w} {v} l xs f ys =
    let i : IsSound _ = Steps-IsSound xs (Launched-IsSound w l) in
    let ends : v.fetcher ≡ awaiting_resume = stuck ys i f in
    (
      ends,
      λ e.
          let j : is_finished v.fetcher ≡ true = (Steps-IsSound ys i).after_join (ap is_joined e) in
          cc,
    )
