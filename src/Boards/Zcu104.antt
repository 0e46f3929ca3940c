-- ===== src/Boards/Zcu104.antt =====
-- src/include/known_boards.h: `do_registration_zcu104`.
use ultrasight.Common.{ℕ, pos, set}
use ultrasight.Machine.{
  Device, Proc, Fn, ◌>>=◌, ◌>>◌, pure, return, fn, modify, emit, for_range, exclude_range,
  register_romtable, stm_config_master, stm_select_master, atb_register, etb_full, etb_acqcomp,
  etb_flushin, etb_trigin, stm_trigoutspte, stm_trigoutsw, stm_trigouthete, stm_asyncout,
}
use ultrasight.Boards.Register.{
  Registry, get_device, register_device, add_replicator, register_for, link_cpu, trigger_from,
  trigger_to,
}

-- The affinities of the CTIs, the PMUs and the ETMs.
abbrev pub set_zcu104_affinities : Registry → Proc (Unit {0})
set_zcu104_affinities registry = do
  register_for registry 0xFEC20000 0
  register_for registry 0xFED20000 1
  register_for registry 0xFEE20000 2
  register_for registry 0xFEF20000 3
  register_for registry 0xFEC30000 0
  register_for registry 0xFED30000 1
  register_for registry 0xFEE30000 2
  register_for registry 0xFEF30000 3
  register_for registry 0xFEC40000 0
  register_for registry 0xFED40000 1
  register_for registry 0xFEE40000 2
  register_for registry 0xFEF40000 3

-- The devices that the later parts name.
pub record Zcu104 : Type 0 where
  pub stm : Device
  pub tsgen : Device
  pub etf1 : Device
  pub etf2 : Device
  pub etr : Device
  pub tpiu : Device

-- The STM, the FTM and the timestamp generator, and the links of the trace bus.
abbrev pub link_zcu104 : Registry → Proc Zcu104
link_zcu104 registry = do
  stm ← get_device registry 0xFE9C0000
  modify λ s. record s { devices = record (s.devices) { itm = stm } }
  emit (stm_config_master stm 0 0xF8000000)
  emit (stm_select_master stm 0)
  ftm ← get_device registry 0xFE9D0000
  tsgen ← get_device registry 0xFE900000
  funnel1 ← get_device registry 0xFE920000
  link_cpu registry 0 funnel1 0
  link_cpu registry 1 funnel1 1
  link_cpu registry 2 funnel1 2
  link_cpu registry 3 funnel1 3
  etf1 ← get_device registry 0xFE940000
  emit (atb_register funnel1 0 etf1 0)
  funnel2 ← get_device registry 0xFE930000
  emit (atb_register stm 0 funnel2 0)
  emit (atb_register etf1 0 funnel2 2)
  etf2 ← get_device registry 0xFE950000
  emit (atb_register funnel2 0 etf2 0)
  rep ← add_replicator registry 2
  emit (atb_register etf2 0 rep 0)
  etr ← get_device registry 0xFE970000
  emit (atb_register rep 0 etr 0)
  tpiu ← get_device registry 0xFE980000
  emit (atb_register rep 1 tpiu 0)
  pure (record { stm = stm; tsgen = tsgen; etf1 = etf1; etf2 = etf2; etr = etr; tpiu = tpiu })

-- The triggers of the ETFs, the ETR and the TPIU at the first CTI, and of the STM at the second.
abbrev pub connect_zcu104 : Registry → Zcu104 → Proc (Unit {0})
connect_zcu104 registry z = do
  cti0 ← register_device registry 0xFE990000
  cti1 ← register_device registry 0xFE9A0000
  trigger_from registry z.etf1 etb_full cti0 0
  trigger_from registry z.etf1 etb_acqcomp cti0 1
  trigger_from registry z.etf2 etb_full cti0 2
  trigger_from registry z.etf2 etb_acqcomp cti0 3
  trigger_to registry cti0 0 z.etf1 etb_flushin
  trigger_to registry cti0 1 z.etf1 etb_trigin
  trigger_to registry cti0 2 z.etf2 etb_flushin
  trigger_to registry cti0 3 z.etf2 etb_trigin
  trigger_from registry z.etr etb_full cti0 4
  trigger_from registry z.etr etb_acqcomp cti0 5
  trigger_to registry cti0 4 z.etr etb_flushin
  trigger_to registry cti0 5 z.etr etb_trigin
  trigger_to registry cti0 6 z.tpiu etb_flushin
  trigger_to registry cti0 7 z.tpiu etb_trigin
  trigger_from registry z.stm stm_trigoutspte cti1 4
  trigger_from registry z.stm stm_trigoutsw cti1 5
  trigger_from registry z.stm stm_trigouthete cti1 6
  trigger_from registry z.stm stm_asyncout cti1 7

-- devices->cpu_id[i] = 0xD03
abbrev pub set_cpu_id : ℕ → Proc (Unit {0})
set_cpu_id i =
    modify λ s. record s { devices = record (s.devices) { cpu_id = set s.devices.cpu_id i 0xD03 } }

unfoldable pub do_registration_zcu104 : Registry → Fn
do_registration_zcu104 registry = fn do
  emit (exclude_range 0xFE9E0000 0xFEC00000)
  emit (register_romtable 0xFE800000)
  set_zcu104_affinities registry
  z ← link_zcu104 registry
  modify λ s. record s {
    devices = record (s.devices) {
      etb = z.etr;
      tpiu = z.tpiu;
      trace_sinks = set (set s.devices.trace_sinks 0 z.etf1) 1 z.etf2;
      num_trace_sinks = 2;
    };
  }
  connect_zcu104 registry z
  modify λ s. record s { devices = record (s.devices) { tsgen = z.tsgen } }
  for_range 4 0 set_cpu_id
  return (pos 0)
