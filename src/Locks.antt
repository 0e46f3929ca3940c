-- ===== src/Locks.antt =====
-- The discipline of the four mutexes of src/common.c, read off the log of calls.
pub mod Calls
pub mod Session
use ultrasight.Common.{
  ◌≡◌, refl, ◌∙◌, ℕ, zero, suc, ◌+◌, Bool, true, false, Option, none, some, List, [], ◌∷◌, ◌==◌,
  if◌then◌else◌, arith,
}
use ultrasight.Machine.Keeps.{Ignores}
use ultrasight.Locks.Calls.{touches_mutex}
use ultrasight.Machine.{
  Mutex, trace_mutex, trace_state_mutex, trace_event_mutex, trace_fetcher_mutex, Call, mutex_lock,
  mutex_unlock, cond_wait, Machine, Flow, Proc, next, done, fault, after,
}

abbrev pub number : Mutex → ℕ
number trace_mutex = 0
number trace_state_mutex = 1
number trace_event_mutex = 2
number trace_fetcher_mutex = 3

abbrev pub is_held : Mutex → List Mutex → Bool
is_held m [] = false
is_held m (h ∷ hs) = if number m == number h then true else is_held m hs

abbrev pub acquire : Mutex → List Mutex → Option (List Mutex)
acquire m hs = if is_held m hs then none else some (m ∷ hs)

abbrev pub release : Mutex → List Mutex → Option (List Mutex)
release m [] = none
release m (h ∷ hs) = if number m == number h then some hs else none

-- What a call does to the stack of held mutexes; `none` once a mutex was taken twice, or released or
-- waited with out of turn.
abbrev pub lock_step : Call → List Mutex → Option (List Mutex)
lock_step (mutex_lock m) hs = acquire m hs
lock_step (mutex_unlock m) hs = release m hs
lock_step (cond_wait c m) hs = if is_held m hs then some hs else none
lock_step _ hs = some hs

-- The mutexes that are held after the calls of a log, the newest call first.
abbrev pub held : List Call → Option (List Mutex)
held [] = some []
held (c ∷ l) = elim (held l) [ none ↦ none | some hs ↦ lock_step c hs ]

abbrev pub held_by : Machine → Option (List Mutex)
held_by s = held s.log

lock_step-silent : (c : Call) (hs : List Mutex) → touches_mutex c ≡ false → lock_step c hs ≡ some hs
lock_step-silent (mutex_lock m) hs h = cc
lock_step-silent (mutex_unlock m) hs h = cc
lock_step-silent (cond_wait c m) hs h = cc
lock_step-silent _ hs h = refl

pub held-silent : (c : Call) → touches_mutex c ≡ false → Ignores held_by c
held-silent c h = record {
  ignores = λ s. ground (arith, λ (hs : List Mutex). lock_step-silent c hs h);
}
