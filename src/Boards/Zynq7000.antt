-- ===== src/Boards/Zynq7000.antt =====
-- src/include/known_boards.h: `do_registration_zynq7000`.
use ultrasight.Common.{pos}
use ultrasight.Machine.{Fn, ◌>>=◌, ◌>>◌, return, fn, modify, emit, register_romtable, atb_register}
use ultrasight.Boards.Register.{Registry, get_device, add_replicator, register_for, link_cpu}

unfoldable pub do_registration_zynq7000 : Registry → Fn
do_registration_zynq7000 registry = fn do
  emit (register_romtable 0xF8880000)
  register_for registry 0xF8898000 0
  register_for registry 0xF8899000 1
  register_for registry 0xF8891000 0
  register_for registry 0xF8893000 1
  register_for registry 0xF889C000 0
  register_for registry 0xF889D000 1
  funnel ← get_device registry 0xF8804000
  link_cpu registry 0 funnel 0
  link_cpu registry 1 funnel 1
  rep ← add_replicator registry 2
  emit (atb_register funnel 0 rep 0)
  tpiu ← get_device registry 0xF8803000
  emit (atb_register rep 0 tpiu 0)
  etb ← get_device registry 0xF8801000
  emit (atb_register rep 1 etb 0)
  modify
      λ s. record s { devices = record (s.devices) { etb = etb; tpiu = tpiu; num_trace_sinks = 0 } }
  return (pos 0)
