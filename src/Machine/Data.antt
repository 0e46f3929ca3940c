-- ===== src/Machine/Data.antt =====
-- The structures that the code passes about: `struct map_info` of include/utils.h, and the fields that
-- the code reads or writes of the CSAL structures `board`, `cs_devices_t` and `cs_etmv4_config_t`.
use ultrasight.Common.{ℕ, List}

-- A `cs_device_t` or an address; 0 is NULL.
abbrev pub Device : Type 0
Device = ℕ

pub record MapInfo : Type 0 where
  pub start : ℕ
  pub end : ℕ
  pub offset : ℕ
  pub buf : ℕ
  pub path : List ℕ

pub record Board : Type 0 where
  pub n_cpu : ℕ
  pub etr_axictl : ℕ

-- `ptm`, `trace_sinks` and `cpu_id` are the arrays of the structure.
pub record Devices : Type 0 where
  pub etb : Device
  pub tpiu : Device
  pub itm : Device
  pub ptm : List Device
  pub trace_sinks : List Device
  pub num_trace_sinks : ℕ
  pub tsgen : Device
  pub cpu_id : List ℕ

-- `struct _adrcmp`
pub record AdrCmp : Type 0 where
  pub acvr_l : ℕ
  pub acvr_h : ℕ
  pub acatr_l : ℕ

-- `cs_etmv4_config_t`, with the bit fields of `configr` and of the static `scv4->idr2` as numbers,
-- and of each array of comparators the entries that the code touches.
pub record EtmConfig : Type 0 where
  pub flags : ℕ
  pub vmidsize : ℕ
  pub cidsize : ℕ
  pub vmid : ℕ
  pub cid : ℕ
  pub rs : ℕ
  pub bb : ℕ
  pub cci : ℕ
  pub cidcvr_l : ℕ
  pub cidcvr_h : ℕ
  pub cidcctlr0 : ℕ
  pub cxid_comps_acc_mask : ℕ
  pub addr_comp0 : AdrCmp
  pub addr_comp1 : AdrCmp
  pub addr_comps_acc_mask : ℕ
  pub victlr : ℕ
  pub viiectlr : ℕ
  pub vissctlr : ℕ
  pub eventctlr0r : ℕ
  pub eventctlr1r : ℕ
  pub stallcrlr : ℕ
  pub syncpr : ℕ
