-- ===== src/Config/Etm/Filter.antt =====
-- The address and context filter that is programmed into an ETM.
use ultrasight.Common.{◌≡◌, ◌⊎◌, ℕ, ◌+◌, ◌*◌, ◌^◌, ◌<◌, bit_and, bit_or, some, arith}
use ultrasight.Machine.{AdrCmp, EtmConfig, MapInfo, Headers}
use ultrasight.Config.Etm.{filter_config}

-- The 64-bit address that a comparator's two registers hold.
abbrev pub address : AdrCmp → ℕ
address c = c.acvr_h * 2 ^ 32 + c.acvr_l

-- What is asked of the filter of a range and a context id: the comparators hold the ends of the range;
-- with a context id they are tied to context comparator 0 (the field 4 of the type register), which
-- holds the id; and tracing of the id is on exactly if the ETM has the field for it and an id is
-- given. The range of comparators 0 and 1 is included by the view-instruction register, the masks name
-- the comparators that are to be written, the flags name their groups, and all other bits are as they
-- were. The mask of context comparator 0 has its lowest bit cleared. Branch broadcast is on.
pub record Filters (h : Headers) (range : MapInfo) (cid : ℕ) (c d : EtmConfig) : Type 0 where
  pub start : address d.addr_comp0 ≡ range.start
  pub end : address d.addr_comp1 ≡ range.end
  pub tied :
      (0 < cid)
        × (d.addr_comp0.acatr_l ≡ bit_or h.acatr_excluded 4)
        × (d.addr_comp1.acatr_l ≡ bit_or h.acatr_excluded 4)
        × (d.cidcvr_h * 2 ^ 32 + d.cidcvr_l ≡ cid)
        × (d.cidcctlr0 ≡ bit_and c.cidcctlr0 0xFFFFFFFE)
        × (d.cxid_comps_acc_mask ≡ bit_or c.cxid_comps_acc_mask 1)
        × (d.flags ≡ bit_or (bit_or c.flags h.etmc_cxid_comp) h.etmc_addr_comp)
      ⊎ (cid ≡ 0)
        × (d.addr_comp0.acatr_l ≡ bit_or h.acatr_excluded 0)
        × (d.addr_comp1.acatr_l ≡ bit_or h.acatr_excluded 0)
        × (d.cidcvr_h ≡ c.cidcvr_h)
        × (d.cidcvr_l ≡ c.cidcvr_l)
        × (d.cidcctlr0 ≡ c.cidcctlr0)
        × (d.cxid_comps_acc_mask ≡ c.cxid_comps_acc_mask)
        × (d.flags ≡ bit_or c.flags h.etmc_addr_comp)
  pub traces_id :
      (d.cid ≡ 1) × (0 < c.cidsize) × (0 < cid) ⊎ (d.cid ≡ 0) × ((c.cidsize ≡ 0) ⊎ (cid ≡ 0))
  pub broadcasts : d.bb ≡ 1
  pub included : d.viiectlr ≡ bit_or c.viiectlr 1
  pub written : d.addr_comps_acc_mask ≡ bit_or c.addr_comps_acc_mask 3

-- The configuration written to an ETM filters by the traced range and the traced process, for every
-- range and id of 64 bits.
pub filter_config-Filters :
    (h : Headers) (range : MapInfo) (cid : ℕ) (c : EtmConfig)
    → range.start < 2 ^ 64
    → range.end < 2 ^ 64
    → cid < 2 ^ 64
    → Filters h range cid c (filter_config h (some range) cid c)
unfolding filter_config
filter_config-Filters h range cid c s e i = ground arith
