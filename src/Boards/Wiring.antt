-- ===== src/Boards/Wiring.antt =====
-- The trace bus that the registration of a board links.
use ultrasight.Common.{ℕ, ◌<◌, ◌≡◌, ◌⊎◌, List, [], ◌∷◌, get_or}
use ultrasight.Machine.{Device, Call, atb_register, Machine}
use ultrasight.Boards.{KnownBoard}
use ultrasight.Boards.Register.{Registry}

pub record Link : Type 0 where
  pub source : Device
  pub target : Device
  pub input : ℕ

-- The links that a log of calls has made, the newest first.
abbrev pub links : List Call → List Link
links [] = []
links (atb_register d output e input ∷ l) =
    (record { source = d; target = e; input = input }) ∷ links l
links (_ ∷ l) = links l

-- A link from one device to the other.
pub data Linked (d e : Device) : List Link → Type 0 where
  newest :
      {input : ℕ} {ls : List Link}
      → Linked d e ((record { source = d; target = e; input = input }) ∷ ls)
  older : {k : Link} {ls : List Link} → Linked d e ls → Linked d e (k ∷ ls)

-- What a device's trace flows to.
pub data Reaches (ls : List Link) : (d e : Device) → Type 0 where
  stays : {d : Device} → Reaches ls d d
  flows : {d e f : Device} → Linked d e ls → Reaches ls e f → Reaches ls d f

-- Of each of the first `n` CPUs, the trace flows to the buffer and to the port, and on the way to the
-- buffer through every trace sink.
abbrev pub Wired : Registry → ℕ → Machine → Type 0
Wired registry n t =
    (cpu : ℕ)
    → cpu < n
    → let source = registry.cpu_device cpu registry.devclass_source in
      Reaches (links t.log) source t.devices.etb
      × Reaches (links t.log) source t.devices.tpiu
      × ((i : ℕ)
          → i < t.devices.num_trace_sinks
          → let sink = get_or t.devices.trace_sinks i 0 in
            Reaches (links t.log) source sink × Reaches (links t.log) sink t.devices.etb)

-- From the first state to the second, the device that is taken to be the STM stays as it was, or its
-- trace flows to the buffer and to the port.
abbrev pub StmWired : Machine → Machine → Type 0
StmWired s t =
    (t.devices.itm ≡ s.devices.itm)
    ⊎ (Reaches (links t.log) t.devices.itm t.devices.etb
        × Reaches (links t.log) t.devices.itm t.devices.tpiu)

pub data Listed (b : KnownBoard) : List KnownBoard → Type 0 where
  head : {bs : List KnownBoard} → Listed b (b ∷ bs)
  tail : {c : KnownBoard} {bs : List KnownBoard} → Listed b bs → Listed b (c ∷ bs)
