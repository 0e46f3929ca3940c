-- ===== src/Boards/Register.antt =====
-- The calls by which src/include/known_boards.h registers a board with CSAL.
use ultrasight.Common.{ℕ}
use ultrasight.Machine.{
  Device, Trigger, Proc, ◌>>=◌, ◌>>◌, pure, emit, device_register, device_get, set_affinity,
  cpu_get_device, atb_add_replicator, atb_register, cti_trigsrc, cti_trigdst, connect_trigsrc,
  connect_trigdst,
}

-- The handles that CSAL gives: of the device at an address, of a CPU's device of a class, of the
-- replicator with so many outputs, and of the trigger ports of a CTI.
pub record Registry : Type 0 where
  pub devclass_source : ℕ
  pub device : (addr : ℕ) → Device
  pub cpu_device : (cpu class : ℕ) → Device
  pub replicator : (outputs : ℕ) → Device
  pub trigsrc : (cti : Device) (port : ℕ) → ℕ
  pub trigdst : (cti : Device) (port : ℕ) → ℕ

abbrev pub get_device : Registry → ℕ → Proc Device
get_device registry addr = emit (device_get addr) >> pure (registry.device addr)

abbrev pub register_device : Registry → ℕ → Proc Device
register_device registry addr = emit (device_register addr) >> pure (registry.device addr)

abbrev pub add_replicator : Registry → ℕ → Proc Device
add_replicator registry outputs =
    emit (atb_add_replicator outputs) >> pure (registry.replicator outputs)

-- cs_device_set_affinity(cs_device_register(addr), cpu)
abbrev pub register_for : Registry → (addr cpu : ℕ) → Proc (Unit {0})
register_for registry addr cpu = do d ← register_device registry addr; emit (set_affinity d cpu)

-- cs_atb_register(cs_cpu_get_device(cpu, CS_DEVCLASS_SOURCE), 0, funnel, input)
abbrev pub link_cpu : Registry → ℕ → Device → ℕ → Proc (Unit {0})
link_cpu registry cpu funnel input = do
  emit (cpu_get_device cpu registry.devclass_source)
  emit (atb_register (registry.cpu_device cpu registry.devclass_source) 0 funnel input)

-- cs_cti_connect_trigsrc(d, trigger, cs_cti_trigsrc(cti, port))
abbrev pub trigger_from : Registry → Device → Trigger → Device → ℕ → Proc (Unit {0})
trigger_from registry d t cti port = do
  emit (cti_trigsrc cti port)
  emit (connect_trigsrc d t (registry.trigsrc cti port))

-- cs_cti_connect_trigdst(cs_cti_trigdst(cti, port), d, trigger)
abbrev pub trigger_to : Registry → Device → ℕ → Device → Trigger → Proc (Unit {0})
trigger_to registry cti port d t = do
  emit (cti_trigdst cti port)
  emit (connect_trigdst (registry.trigdst cti port) d t)
