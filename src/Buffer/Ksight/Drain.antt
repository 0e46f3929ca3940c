-- ===== src/Buffer/Ksight/Drain.antt =====
-- `fetch_ksight_events` takes over all that the device gives.
use ultrasight.Common.{ℕ, ◌≡◌, ℤ, List, ◌∷◌, ◌++◌}
use ultrasight.Machine.{
  Env, Machine, Flow, next, done, fault, bind, returned, close_file, open_file,
}
use ultrasight.Buffer.Memory.{contents, IsValid}
use ultrasight.Buffer.Trace.Fetch.Record.{pad8}
use ultrasight.Buffer.Ksight.{ksight_device}
use ultrasight.Buffer.Ksight.Events.{events}
use ultrasight.Buffer.Ksight.Round.{Gains, Ended, Round}

-- The end of the loop: what was read since `s` is in the buffer.
abbrev pub Drained : Env → Machine → Flow (Unit {0}) → Type 0
Drained env s (next _ t) = ⊥
Drained env s (done r t) = Gains env s t × Ended env t r
Drained env s (fault t) = ⊥

-- How `fetch_ksight_events` ends once the device is open: what the device gave is behind the padded
-- contents, and the device is closed after the loop's end.
abbrev pub Collected : Env → Machine → Flow ℤ → Type 0
Collected env s (next r t) =
    (bytes : List ℕ) × IsValid t.ksight_buf
    × (contents t.ksight_buf ≡ pad8 (contents s.ksight_buf) ++ bytes)
    × (events env t.log ≡ events env s.log ++ bytes)
    × ((u : Machine) × (t.log ≡ close_file (env.ret s.log (open_file ksight_device)) ∷ u.log)
        × Ended env u r)
Collected env s (done r t) = ⊥
Collected env s (fault t) = ⊥

abbrev closed : ℤ → Flow (Unit {0}) → Flow ℤ
closed fd f =
    returned (bind (returned f) (λ ret t. done ret (record t { log = close_file fd ∷ t.log })))
