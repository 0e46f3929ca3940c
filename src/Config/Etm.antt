-- ===== src/Config/Etm.antt =====
-- src/config.c: `set_etmv4_addr_range`, `configure_etmv4_addr_range_cid`, `show_etm_config` and
-- `init_etm`.
pub mod Filter
use ultrasight.Common.{
  ℕ, zero, suc, ◌+◌, ◌-◌, ◌*◌, ◌/◌, ◌%◌, ◌^◌, bit_and, bit_or, ℤ, pos, minus_one, is_nonzero,
  is_positive, Bool, true, false, ◌&&◌, List, Option, none, some, ltb, leb, if◌then◌else◌,
}
use ultrasight.Machine.{
  Device, MapInfo, AdrCmp, EtmConfig, device_has_class, etm_get_version, etm_clean, etm_config_init,
  etm_config_get, etm_config_put, etm_config_print, error_count, Headers, Env, Machine, Proc, Fn,
  ◌>>=◌, ◌>>◌, return, return_if, assert, when, fn, fault, get, ask, emit,
}

-- The constants at the head of the file.
abbrev return_stack : Bool
return_stack = false

abbrev branch_broadcast : Bool
branch_broadcast = true

abbrev cycle_count : Bool
cycle_count = false

-- `none` is the NULL range; the comparators come by reference and are always there.
unfoldable pub set_etmv4_addr_range :
    Headers → Option MapInfo → AdrCmp × AdrCmp → ℕ → AdrCmp × AdrCmp
set_etmv4_addr_range h none comps acc_type_ex = comps
set_etmv4_addr_range h (some range) comps acc_type_ex =
    let acc_type = bit_or h.acatr_excluded acc_type_ex in
    (
      record {
        acvr_l = range.start % 2 ^ 32;
        acvr_h = range.start / 2 ^ 32 % 2 ^ 32;
        acatr_l = acc_type;
      },
      record {
        acvr_l = range.end % 2 ^ 32;
        acvr_h = range.end / 2 ^ 32 % 2 ^ 32;
        acatr_l = acc_type;
      },
    )

-- The VMID and context id fields of TRCCONFIGR.
unfoldable pub set_ids : ℕ → EtmConfig → EtmConfig
set_ids cid c = record c {
  vmid = if ltb 0 c.vmidsize then 0 else c.vmid;
  cid = if ltb 0 c.cidsize && ltb 0 cid then 1 else 0;
}

unfoldable pub set_features : EtmConfig → EtmConfig
set_features c = record c {
  rs = if return_stack then 1 else c.rs;
  bb = if branch_broadcast then 1 else c.bb;
  cci = if cycle_count then 1 else c.cci;
}

-- The context id comparator 0, set up if a context id is given.
unfoldable pub set_context_comparator : Headers → ℕ → EtmConfig → EtmConfig
set_context_comparator h cid c =
    if ltb 0 cid
    then record c {
      cidcvr_l = cid % 2 ^ 32;
      cidcvr_h = cid / 2 ^ 32 % 2 ^ 32;
      cidcctlr0 = bit_and c.cidcctlr0 (2 ^ 32 - 1 - 1);
      cxid_comps_acc_mask = bit_or c.cxid_comps_acc_mask 1;
      flags = bit_or c.flags h.etmc_cxid_comp;
    }
    else c

-- The address comparators 0 and 1 around the traced range.
unfoldable pub set_address_filter : Headers → Option MapInfo → ℕ → EtmConfig → EtmConfig
unfolding set_etmv4_addr_range
set_address_filter h range cid c =
    let comps =
      set_etmv4_addr_range h range (c.addr_comp0, c.addr_comp1) (if ltb 0 cid then 4 else 0) in
    record c {
      addr_comp0 = comps.0;
      addr_comp1 = comps.1;
      addr_comps_acc_mask = bit_or c.addr_comps_acc_mask 3;
      viiectlr = bit_or c.viiectlr 1;
      flags = bit_or c.flags h.etmc_addr_comp;
    }

-- The configuration that `configure_etmv4_addr_range_cid` makes of the one read from the device.
unfoldable pub filter_config : Headers → Option MapInfo → ℕ → EtmConfig → EtmConfig
unfolding set_ids set_features set_context_comparator set_address_filter
filter_config h range cid c =
    set_address_filter h range cid (set_context_comparator h cid (set_features (set_ids cid c)))

-- `t4config` is NULL when its `flags` are written: past the version check the function faults.
unfoldable pub show_etm_config : Env → Device → Proc (Unit {0})
show_etm_config env etm = do
  has ← ask env (device_has_class etm env.headers.devclass_source)
  assert (is_nonzero has)
  version ← ask env (etm_get_version etm)
  let v4 = leb env.headers.etmversion_etmv4 (env.version_major version)
  when v4 (emit (etm_config_init etm) >> fault)

unfoldable pub configure_etmv4_addr_range_cid : Env → Device → Option MapInfo → ℕ → Fn
unfolding filter_config show_etm_config
configure_etmv4_addr_range_cid env etm range cid = fn do
  s ← get
  emit (etm_config_init etm)
  let h = env.headers
  let tconfig = record (env.config_init s.log etm) {
    flags = bit_or (bit_or h.etmc_trace_enable h.etmc_config) h.etmc_eventselect;
  }
  t ← get
  emit (etm_config_get etm tconfig)
  emit (etm_config_put etm (filter_config h range cid (env.config_get t.log etm tconfig)))
  when (is_positive s.registration_verbose) (show_etm_config env etm)
  errors ← ask env error_count
  return_if (is_positive errors) minus_one
  return (pos 0)

-- What `init_etm` makes of the configuration read from the device.
unfoldable pub clean_config : Headers → EtmConfig → EtmConfig
clean_config h c = record c {
  flags = bit_or c.flags (bit_or h.etmc_trace_enable h.etmc_eventselect);
  victlr = 0x201;
  viiectlr = 0;
  vissctlr = 0;
  eventctlr0r = 0;
  eventctlr1r = 0;
  stallcrlr = 2 ^ 13;
  syncpr = 0;
}

unfoldable pub init_etm : Env → Device → Fn
unfolding clean_config
init_etm env dev = fn do
  has ← ask env (device_has_class dev env.headers.devclass_source)
  assert (is_nonzero has)
  version ← ask env (etm_get_version dev)
  rc ← ask env (etm_clean dev)
  return_if (is_nonzero rc) rc
  assert (env.version_is_etmv4 version)
  s ← get
  emit (etm_config_init dev)
  let v4config = record (env.config_init s.log dev) { flags = env.headers.etmc_config }
  t ← get
  emit (etm_config_get dev v4config)
  emit (etm_config_put dev (clean_config env.headers (env.config_get t.log dev v4config)))
  return (pos 0)
