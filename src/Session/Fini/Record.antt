-- ===== src/Session/Fini/Record.antt =====
-- What `fini_trace` does with the record of the trace, in a session without the fetcher thread and without ksight.
use ultrasight.Common.{
  ℕ, zero, suc, true, ◌++◌, append_assoc, ◌+◌, ◌≡◌, refl, ap, sym, ◌∙◌, false, Bool, List, [], ◌∷◌,
}
use ultrasight.Machine.{
  Env, Machine, Flow, next, done, fault, bind, Proc, ◌>>=◌, ◌>>◌, get, modify, when, for_range,
  emit, shutdown, Call,
}
use ultrasight.Machine.Keeps.{Keeps}
use ultrasight.Buffer.Trace.{free_trace_buf}
use ultrasight.Buffer.Trace.Runs.{Op, fetch, export, Run}
use ultrasight.Session.Fini.{finish_ksight, dump_ranges, destroy_locks, default_trace_name}

-- The operations on the record.
abbrev pub closing_ops : List Op
closing_ops = fetch ∷ export default_trace_name ∷ []

-- A run of those operations, up to a log that the calls of the rest of `fini_trace` are made after.
abbrev pub Finished : Env → Machine → Flow (Unit {0}) → Type 0
Finished env s (next _ t) =
    (k : List Call) × Run env s.log closing_ops k × ((calls : List Call) × (t.log ≡ calls ++ k))
Finished env s (done r t) = ⊥
Finished env s (fault t) = ⊥

-- A procedure that goes on, with more calls in its log.
abbrev Longer : Machine → Flow (Unit {0}) → Type 0
Longer s (next _ t) = (calls : List Call) × (t.log ≡ calls ++ s.log)
Longer s (done r t) = ⊥
Longer s (fault t) = ⊥

record Lengthens (m : Proc (Unit {0})) : Type 0 where
  longer : (s : Machine) → Longer s (m s)

further :
    (s t : Machine) (f : Flow (Unit {0})) (calls : List Call)
    → t.log ≡ calls ++ s.log
    → Longer t f
    → Longer s f
further s t (next _ u) calls e (more, e') =
    (more ++ calls, e' ∙ ap (λ l. more ++ l) e ∙ sym (append_assoc more calls s.log))
further s t (done r u) calls e h = h
further s t (fault u) calls e h = h

Lengthens->> : {m k : Proc (Unit {0})} → Lengthens m → Lengthens k → Lengthens (m >> k)
Lengthens->> {m} {k} h j = record { longer = λ s. go s (m s) (h.longer s) }
  where
    go : (s : Machine) (f : Flow (Unit {0})) → Longer s f → Longer s (bind f (λ _. k))
    go s (next _ t) (calls, e) = further s t (k t) calls e (j.longer t)
    go s (done r t) h = h
    go s (fault t) h = h

Lengthens-emit : {c : Call} → Lengthens (emit c)
Lengthens-emit {c} = record { longer = λ s. (c ∷ [], refl) }

Lengthens-modify :
    {f : Machine → Machine} → ((s : Machine) → (f s).log ≡ s.log) → Lengthens (modify f)
Lengthens-modify h = record { longer = λ s. ([], h s) }

Lengthens-get :
    {f : Machine → Proc (Unit {0})} → ((s : Machine) → Lengthens (f s)) → Lengthens (get >>= f)
Lengthens-get h = record { longer = λ s. (h s).longer s }

when-Longer : (b : Bool) (m : Proc (Unit {0})) (s : Machine) → Lengthens m → Longer s (when b m s)
when-Longer true m s h = h.longer s
when-Longer false m s h = ([], refl)

Lengthens-when : (b : Bool) {m : Proc (Unit {0})} → Lengthens m → Lengthens (when b m)
Lengthens-when b {m} h = record { longer = λ s. when-Longer b m s h }

Lengthens-for_range :
    (n i : ℕ) {body : ℕ → Proc (Unit {0})}
    → ((j : ℕ) → Lengthens (body j))
    → Lengthens (for_range n i body)
unfolding for_range
Lengthens-for_range zero i h = record { longer = λ s. ([], refl) }
Lengthens-for_range (suc n) i {body} h = record {
  longer = λ s. (Lengthens->> (h i) (Lengthens-for_range n (i + 1) h)).longer s;
}

ruleset lengthening = (
  Lengthens->>, Lengthens-emit, Lengthens-modify, Lengthens-get, Lengthens-when,
  Lengthens-for_range,
)

abbrev ksight_of : Machine → Bool
ksight_of s = s.ksight_on

module _ (env : Env) where
  -- What is left of `fini_trace` after the export.
  abbrev release : ℕ → Proc (Unit {0})
  release fuel =
      finish_ksight env fuel
      >> (dump_ranges env >> (free_trace_buf >> (emit shutdown >> destroy_locks)))
