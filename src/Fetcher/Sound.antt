-- ===== src/Fetcher/Sound.antt =====
-- What holds in every world that the threads reach after the launch.
pub mod Worker
pub mod Parent
pub mod Reached
use ultrasight.Common.{◌≡◌, ◌+◌, ◌*◌, ap, ℕ, Bool, true, false, Option, none, some, ◌==◌}
use ultrasight.Machine.{TraceEvent}
use ultrasight.Tracer.Status.{Report, sigstop}
use ultrasight.Fetcher.World.{
  World, Launched, FetcherAt, idle, polling, over, awaiting_suspend, collecting, fetching, enabling,
  resuming, leaving, finished, ChildAt, is_running, MainAt, waiting, joined,
}
use ultrasight.Fetcher.State.{is_resume, is_start, is_suspend}

-- Between the suspension that was seen and the resumption.
abbrev pub is_pausing : FetcherAt → Bool
is_pausing collecting = true
is_pausing fetching = true
is_pausing enabling = true
is_pausing resuming = true
is_pausing _ = false

abbrev pub is_awaiting : FetcherAt → Bool
is_awaiting awaiting_suspend = true
is_awaiting _ = false

-- Where the fetcher has seen another event than the start.
abbrev pub is_past : FetcherAt → Bool
is_past leaving = true
is_past f = is_pausing f

-- Where the fetcher has not sent a SIGSTOP, and may send one.
abbrev pub looks : FetcherAt → TraceEvent → Bool
looks idle e = is_start e
looks polling e = true
looks over e = true
looks _ e = false

abbrev pub runs : ChildAt → Bool
runs is_running = true
runs _ = false

abbrev pub is_finished : FetcherAt → Bool
is_finished finished = true
is_finished _ = false

abbrev pub is_joined : MainAt → Bool
is_joined joined = true
is_joined _ = false

abbrev pub reports_stop : Option ((w : ℕ) × Report w) → Bool
reports_stop none = false
reports_stop (some (w, r)) = w == sigstop * 256 + 0x7f

-- No SIGSTOP was sent: none is on its way, and none was taken or reported.
pub record Fresh (w : World) : Type 0 where
  pub unsuspended : is_suspend w.shared.trace_event ≡ false
  pub unreported : reports_stop w.pending ≡ false
  pub unsent : w.stopping ≡ false

-- The signalled suspension, or the report of one, is of a child that does not run.
pub record Calm (w : World) : Type 0 where
  pub suspended : is_suspend w.shared.trace_event ≡ true → runs w.child ≡ false
  pub reported : reports_stop w.pending ≡ true → runs w.child ≡ false

-- The event is no resumption; past the suspension it is no start; the child does not run while the
-- fetcher has it suspended; and the parent is past the join only if the fetcher has returned.
pub record IsSound (w : World) : Type 0 where
  pub unresumed : is_resume w.shared.trace_event ≡ false
  pub unstarted : is_past w.fetcher ≡ true → is_start w.shared.trace_event ≡ false
  pub fresh : looks w.fetcher w.shared.trace_event ≡ true → Fresh w
  pub calm : is_awaiting w.fetcher ≡ true → Calm w
  pub paused : is_pausing w.fetcher ≡ true → runs w.child ≡ false
  pub after_join : is_joined w.main ≡ true → is_finished w.fetcher ≡ true

pub Launched-IsSound : (w : World) → Launched w → IsSound w
Launched-IsSound w l = record {
  unresumed = ap is_resume l.event_start;
  unstarted = λ p. (let e : w.fetcher ≡ idle = l.fetcher_idle in cc);
  fresh = λ p. record {
    unsuspended = ap is_suspend l.event_start;
    unreported = ap reports_stop l.none_pending;
    unsent = l.none_stopping;
  };
  calm = λ p. absurd (let e : w.fetcher ≡ idle = l.fetcher_idle in cc);
  paused = λ p. (let e : w.fetcher ≡ idle = l.fetcher_idle in cc);
  after_join = λ p. (let e : w.main ≡ waiting = l.main_waiting in cc);
}
