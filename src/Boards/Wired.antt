-- ===== src/Boards/Wired.antt =====
-- Where the trace of a board's CPUs flows.
use ultrasight.Common.{
  ℕ, zero, suc, ◌<◌, ◌≤◌, ◌≡◌, refl, pos, some, List, [], ◌∷◌, length, get_or, set, arith, inl, inr,
}
use ultrasight.Machine.{Device, Machine, after, value, for_range}
use ultrasight.Boards.{KnownBoard, known_boards}
use ultrasight.Boards.Register.{Registry}
use ultrasight.Boards.Zcu104.{do_registration_zcu104}
use ultrasight.Boards.Zynq7000.{do_registration_zynq7000}
use ultrasight.Boards.Wiring.{
  Link, links, Linked, newest, older, Reaches, stays, flows, Wired, StmWired, Listed, head, tail,
}

ruleset linking = (newest, older)

zynq7000-Wired :
    (registry : Registry) (s : Machine)
    → Wired registry 2 (after (do_registration_zynq7000 registry s))
unfolding do_registration_zynq7000
zynq7000-Wired registry s cpu lt =
    (flows (linked cpu lt) to_etb, flows (linked cpu lt) to_tpiu, λ i h. absurd (omega arith))
  where
    ls : List Link
    ls = links (after (do_registration_zynq7000 registry s)).log

    funnel : Device
    funnel = registry.device 0xF8804000

    rep : Device
    rep = registry.replicator 2

    linked :
        (cpu : ℕ) → cpu < 2 → Linked (registry.cpu_device cpu registry.devclass_source) funnel ls
    linked zero h = search linking
    linked (suc zero) h = search linking
    linked (suc (suc n)) h = absurd (omega arith)

    to_etb : Reaches ls funnel (registry.device 0xF8801000)
    to_etb = flows {e = rep} (search linking) (flows (search linking) stays)

    to_tpiu : Reaches ls funnel (registry.device 0xF8803000)
    to_tpiu = flows {e = rep} (search linking) (flows (search linking) stays)

-- The two sinks that are stored in an array with room for them.
stored :
    (ds : List Device) (d e : Device)
    → 2 ≤ length ds
    → (get_or (set (set ds 0 d) 1 e) 0 0 ≡ d) × (get_or (set (set ds 0 d) 1 e) 1 0 ≡ e)
stored [] d e h = absurd (omega arith)
stored (a ∷ []) d e h = absurd (omega arith)
stored (a ∷ b ∷ ds) d e h = (refl, refl)

module _ (registry : Registry) (s : Machine) where
  -- The state after the registration.
  abbrev zcu104 : Machine
  unfolding do_registration_zcu104 for_range
  zcu104 = after (do_registration_zcu104 registry s)

  abbrev bus : List Link
  bus = links zcu104.log

  abbrev funnel1 : Device
  funnel1 = registry.device 0xFE920000

  abbrev etf1 : Device
  etf1 = registry.device 0xFE940000

  abbrev funnel2 : Device
  funnel2 = registry.device 0xFE930000

  abbrev etf2 : Device
  etf2 = registry.device 0xFE950000

  abbrev rep : Device
  rep = registry.replicator 2

  cpu-Linked :
      (cpu : ℕ) → cpu < 4 → Linked (registry.cpu_device cpu registry.devclass_source) funnel1 bus
  unfolding do_registration_zcu104 for_range
  cpu-Linked zero h = search linking depth 30
  cpu-Linked (suc zero) h = search linking depth 30
  cpu-Linked (suc (suc zero)) h = search linking depth 30
  cpu-Linked (suc (suc (suc zero))) h = search linking depth 30
  cpu-Linked (suc (suc (suc (suc n)))) h = absurd (omega arith)

  etf2-etb : Reaches bus etf2 zcu104.devices.etb
  unfolding do_registration_zcu104 for_range
  etf2-etb = flows {e = rep} (search linking depth 30) (flows (search linking depth 30) stays)

  etf2-tpiu : Reaches bus etf2 zcu104.devices.tpiu
  unfolding do_registration_zcu104 for_range
  etf2-tpiu = flows {e = rep} (search linking depth 30) (flows (search linking depth 30) stays)

  -- From the first funnel and the first ETF to what the second ETF reaches.
  from_etf1 : {e : Device} → Reaches bus etf2 e → Reaches bus etf1 e
  unfolding do_registration_zcu104 for_range
  from_etf1 r = flows {e = funnel2} (search linking depth 30) (flows (search linking depth 30) r)

  from_funnel1 : {e : Device} → Reaches bus etf1 e → Reaches bus funnel1 e
  unfolding do_registration_zcu104 for_range
  from_funnel1 r = flows (search linking depth 30) r

  sink_between :
      2 ≤ length s.devices.trace_sinks
      → (i : ℕ) → i < 2
      → let sink = get_or zcu104.devices.trace_sinks i 0 in
        Reaches bus funnel1 sink × Reaches bus sink zcu104.devices.etb
  unfolding do_registration_zcu104 for_range
  sink_between room zero h =
      rw (stored s.devices.trace_sinks etf1 etf2 room).0 (from_funnel1 stays, from_etf1 etf2-etb)
  sink_between room (suc zero) h =
      rw (stored s.devices.trace_sinks etf1 etf2 room).1 (from_funnel1 (from_etf1 stays), etf2-etb)
  sink_between room (suc (suc i)) h = absurd (omega arith)

  -- The STM, which `configure_trace` takes to be `devices.itm`.
  stm-Reaches :
      Reaches bus zcu104.devices.itm zcu104.devices.etb
      × Reaches bus zcu104.devices.itm zcu104.devices.tpiu
  unfolding do_registration_zcu104 for_range
  stm-Reaches = (from_stm etf2-etb, from_stm etf2-tpiu)
    where
      from_stm : {e : Device} → Reaches bus etf2 e → Reaches bus (registry.device 0xFE9C0000) e
      from_stm r = flows {e = funnel2} (search linking depth 30) (flows (search linking depth 30) r)

zcu104-Wired :
    (registry : Registry) (s : Machine)
    → 2 ≤ length s.devices.trace_sinks
    → Wired registry 4 (after (do_registration_zcu104 registry s))
unfolding do_registration_zcu104 for_range
zcu104-Wired registry s room cpu lt = (
  from_cpu (from_funnel1 registry s (from_etf1 registry s (etf2-etb registry s))),
  from_cpu (from_funnel1 registry s (from_etf1 registry s (etf2-tpiu registry s))),
  λ i h. (from_cpu (sink_between registry s room i h).0, (sink_between registry s room i h).1),
)
  where
    from_cpu :
        {e : Device}
        → Reaches (bus registry s) (funnel1 registry s) e
        → Reaches (bus registry s) (registry.cpu_device cpu registry.devclass_source) e
    from_cpu r = flows (cpu-Linked registry s cpu lt) r

-- Of every known board, with room for two sinks in the array of the structure: the registration returns
-- 0, and links the trace bus so that the trace of each of the board's `n_cpu` CPUs flows to the sink
-- that is stored as the main buffer, to the one stored as the trace port, and through each sink that
-- is stored as a trace sink on to the main buffer. It leaves the structure's `itm` as it was, or stores
-- there a source whose trace flows to the main buffer and to the trace port.
pub known_boards-Wired :
    (registry : Registry) (s : Machine) (b : KnownBoard)
    → Listed b known_boards
    → 2 ≤ length s.devices.trace_sinks
    → (value (b.do_registration registry s) ≡ some (pos 0))
      × Wired registry b.n_cpu (after (b.do_registration registry s))
      × StmWired s (after (b.do_registration registry s))
unfolding do_registration_zcu104 do_registration_zynq7000 for_range
known_boards-Wired registry s b head room =
    (refl, zcu104-Wired registry s room, inr (stm-Reaches registry s))
known_boards-Wired registry s b (tail head) room = (refl, zynq7000-Wired registry s, inl refl)
known_boards-Wired registry s b (tail (tail l)) room = elim l [ ]
