-- ===== src/Machine/Order/Level.antt =====
-- Rules for procedures that stay in their phase, for `search`.
use native.Mathlib.Nat.{le_refl}
use ultrasight.Common.{ℕ, ◌≤◌, Bool, ◌≡◌, some}
use ultrasight.Machine.Calls.{Call}
use ultrasight.Machine.State.{Env}
use ultrasight.Machine.Monad.{Proc, ◌>>◌, ask, emit, when}
use ultrasight.Machine.Order.{
  Phases, Climbs, Climbs->>, Climbs->>=, Climbs-get, Climbs-pure, Climbs-modify, Climbs-return,
  Climbs-return_if, Climbs-assert, Climbs-fault, Climbs-when, Climbs-silent, Climbs-emit,
  Climbs-ask_silent, Climbs-ask, Climbs-ask_out, Climbs-ask_out_silent, Climbs-fn, if-Climbs,
  for_range-Climbs,
}

-- The first part of a sequence stays in its phase.
pub Climbs-stay :
    {phase : Phases} {lo hi : ℕ} {A B : Type 0} {m : Proc A} {k : Proc B}
    → Climbs phase lo lo m
    → Climbs phase lo hi k
    → lo ≤ hi
    → Climbs phase lo hi (m >> k)
Climbs-stay {lo} h j le = Climbs->> lo h j le

pub Climbs-emit_in :
    {phase : Phases} {k : ℕ} {c : Call} → phase c ≡ some k → Climbs phase k k (emit c)
Climbs-emit_in e = Climbs-emit (le_refl _) e

pub Climbs-ask_in :
    {phase : Phases} (env : Env) {k : ℕ} {c : Call}
    → phase c ≡ some k
    → Climbs phase k k (ask env c)
Climbs-ask_in env e = Climbs-ask env (le_refl _) e

pub Climbs-when_in :
    {phase : Phases} {k : ℕ} (b : Bool) {m : Proc (Unit {0})}
    → Climbs phase k k m
    → Climbs phase k k (when b m)
Climbs-when_in b h = Climbs-when b (le_refl _) h

pub ruleset level = (
  Climbs-stay, Climbs->>=, Climbs-get, Climbs-pure, Climbs-modify, Climbs-return, Climbs-return_if,
  Climbs-assert, Climbs-fault, Climbs-when_in, Climbs-emit_in, Climbs-ask_in, Climbs-silent,
  Climbs-ask_silent, Climbs-ask_out, Climbs-ask_out_silent, Climbs-fn, if-Climbs, for_range-Climbs,
  le_refl,
)
