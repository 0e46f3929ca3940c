-- ===== src/Fetcher/State.antt =====
-- The current event: who changes it, and to what.
use ultrasight.Common.{
  ◌≡◌, ◌≢◌, refl, ◌∙◌, ap, sym, subst, ◌+◌, ◌*◌, ◌⊎◌, inl, inr, ℕ, ℤ, Bool, true, false, List,
}
use ultrasight.Machine.{
  mutex_lock, mutex_unlock, Env, Machine, Flow, Call, TraceState, running_state, suspended_state,
  TraceEvent, start_event, suspend_event, resume_event, next, after,
}
use ultrasight.Machine.Keeps.{Ignores, Keeps, keeping}
use ultrasight.Lifecycle.{set_trace_state}
use ultrasight.Lifecycle.Table.{
  set_trace_state-Signals, Signals, from_init, to_fini, to_ready, set_off, suspend, resume,
}
use ultrasight.Utils.Sysfs.{
  ksight_set_traced_pid, ksight_set_enable, write_attribute, check_directory,
}
use ultrasight.Session.Keeps.{
  Separate, enable_cs_trace-Keeps, disable_cs_trace-Keeps, fetch_trace-Keeps,
}
use ultrasight.Session.Enable.{enable_cs_trace, disable_cs_trace}
use ultrasight.Buffer.Trace.{fetch_trace}
use ultrasight.Tracer.Status.{Report, sigstop}
use ultrasight.Tracer.Parent.{handle_status, close_tags}
use ultrasight.Tracer.Parent.Reports.{handle_status-Report}
use ultrasight.Fetcher.Worker.{leave}

abbrev pub is_resume : TraceEvent → Bool
is_resume resume_event = true
is_resume _ = false

abbrev pub is_start : TraceEvent → Bool
is_start start_event = true
is_start _ = false

abbrev pub is_suspend : TraceEvent → Bool
is_suspend suspend_event = true
is_suspend _ = false

abbrev event_of : Machine → TraceEvent
event_of s = s.trace_event

every : (c : Call) → Ignores event_of c
every c = record { ignores = λ s. refl }

event-Separate : Separate event_of
event-Separate = record {
  apart = record { silent = λ c h. every c; devices_lem = λ s d. refl };
  first_lem = λ s b. refl;
  buffer_lem = λ s b. refl;
}

kept :
    (f : Flow ℤ) (s t : Machine) {r : ℤ}
    → event_of (after f) ≡ event_of s
    → f ≡ next r t
    → t.trace_event ≡ s.trace_event
kept f s t k e = ap (λ g. event_of (after g)) (sym e) ∙ k

pub fetch_trace-event :
    (env : Env) (s t : Machine) {r : ℤ}
    → fetch_trace env s ≡ next r t
    → t.trace_event ≡ s.trace_event
fetch_trace-event env s t e =
    kept _ s t
      ((fetch_trace-Keeps event-Separate (λ m. every (mutex_lock m)) (λ m. every (mutex_unlock m))
          env).keeps
        s)
      e

pub enable_cs_trace-event :
    (env : Env) (pid : ℤ) (s t : Machine) {r : ℤ}
    → enable_cs_trace env pid s ≡ next r t
    → t.trace_event ≡ s.trace_event
enable_cs_trace-event env pid s t e =
    kept _ s t
      ((enable_cs_trace-Keeps event-Separate (λ m. every (mutex_lock m))
          (λ m. every (mutex_unlock m)) env pid).keeps
        s)
      e

pub disable_cs_trace-event :
    (env : Env) (all : Bool) (s t : Machine) {r : ℤ}
    → disable_cs_trace env all s ≡ next r t
    → t.trace_event ≡ s.trace_event
disable_cs_trace-event env all s t e =
    kept _ s t
      ((disable_cs_trace-Keeps event-Separate (λ m. every (mutex_lock m))
          (λ m. every (mutex_unlock m)) env all).keeps
        s)
      e

pub leave-event : (s : Machine) → (after (leave s)).trace_event ≡ s.trace_event
unfolding leave
leave-event s = refl

write-Keeps : (env : Env) (name : List ℕ) (v : ℤ) → Keeps event_of (write_attribute env name v)
unfolding write_attribute check_directory
write-Keeps env name v = search (keeping, every) depth 30

tags-Keeps : (env : Env) → Keeps event_of (close_tags env)
unfolding close_tags ksight_set_enable ksight_set_traced_pid
tags-Keeps env = search (keeping, write-Keeps) depth 20

pub close_tags-event :
    (env : Env) (s : Machine) → (after (close_tags env s)).trace_event ≡ s.trace_event
close_tags-event env s = (tags-Keeps env).keeps s

-- What a change of state can make of the current event.
falls :
    (p : TraceEvent → Bool) (new : TraceState) (s : Machine)
    → ((old : TraceState) (e : TraceEvent) → Signals old new e → p e ≡ false)
    → p s.trace_event ≡ false
    → p (after (set_trace_state new s)).trace_event ≡ false
falls p new s rows h = elim (set_trace_state-Signals new s).1 [
  | inl row ↦ rows _ _ row
  | inr (gap, same) ↦ ap p same ∙ h
]

row-is_resume :
    {old new : TraceState} {e : TraceEvent}
    → Signals old new e
    → new ≢ running_state
    → is_resume e ≡ false
row-is_resume (from_init new) h = refl
row-is_resume (to_fini old k) h = refl
row-is_resume (to_ready old k) h = refl
row-is_resume set_off h = refl
row-is_resume suspend h = refl
row-is_resume resume h = absurd (h refl)

row-is_start :
    {old new : TraceState} {e : TraceEvent}
    → Signals old new e
    → new ≢ running_state
    → is_start e ≡ false
row-is_start (from_init new) h = refl
row-is_start (to_fini old k) h = refl
row-is_start (to_ready old k) h = refl
row-is_start set_off h = absurd (h refl)
row-is_start suspend h = refl
row-is_start resume h = refl

row-is_suspend :
    {old new : TraceState} {e : TraceEvent}
    → Signals old new e
    → new ≢ suspended_state
    → is_suspend e ≡ false
row-is_suspend (from_init new) h = refl
row-is_suspend (to_fini old k) h = refl
row-is_suspend (to_ready old k) h = refl
row-is_suspend set_off h = refl
row-is_suspend suspend h = absurd (h refl)
row-is_suspend resume h = refl

-- From `s` to `t` no start and no resumption is signalled.
pub record Mild (s t : Machine) : Type 0 where
  pub unresumed : is_resume s.trace_event ≡ false → is_resume t.trace_event ≡ false
  pub unstarted : is_start s.trace_event ≡ false → is_start t.trace_event ≡ false

pub same-Mild : {s t : Machine} → t.trace_event ≡ s.trace_event → Mild s t
same-Mild e = record { unresumed = λ h. ap is_resume e ∙ h; unstarted = λ h. ap is_start e ∙ h }

pub set_trace_state-Mild :
    (new : TraceState) (s : Machine) → new ≢ running_state → Mild s (after (set_trace_state new s))
set_trace_state-Mild new s n = record {
  unresumed = falls is_resume new s (λ old e row. row-is_resume row n);
  unstarted = falls is_start new s (λ old e row. row-is_start row n);
}

pub set_trace_state-unsuspended :
    (new : TraceState) (s : Machine)
    → new ≢ suspended_state
    → is_suspend s.trace_event ≡ false
    → is_suspend (after (set_trace_state new s)).trace_event ≡ false
set_trace_state-unsuspended new s n h = falls is_suspend new s (λ old e row. row-is_suspend row n) h

-- A report that does not end the loop leaves the event, or is that of a SIGSTOP.
pub report-event :
    (env : Env) (fuel word : ℕ) (s t : Machine)
    → Report word
    → word ≢ 0
    → handle_status env fuel word s ≡ next false t
    → (t.trace_event ≡ s.trace_event) ⊎ ((word ≡ sigstop * 256 + 0x7f) × Mild s t)
report-event env fuel word s t r h e =
    let (t', e', end) = handle_status-Report env fuel s word r h in
    let back : t ≡ t' = ap (λ f. after f) (sym e ∙ e') in
    elim end [
      | inl same ↦ inl (ap event_of (back ∙ same))
      | inr (w, on, same) ↦
          inr (
            w,
            subst (Mild s) (sym (back ∙ same)) (set_trace_state-Mild suspended_state s (λ q. cc)),
          )
    ]
