-- ===== src/Machine/State.antt =====
-- The globals of src/common.c, with the log of the calls made so far, and the environment that
-- answers the calls.
use ultrasight.Common.{ℕ, ℤ, List, Bool, Option}
use ultrasight.Machine.Data.{Device, MapInfo, Board, Devices, EtmConfig}
use ultrasight.Machine.Calls.{Call}

-- The constants of CSAL's headers that the code names.
pub record Headers : Type 0 where
  pub errdesc : Device
  pub devclass_source : ℕ
  pub etmversion_etmv4 : ℕ
  pub tmc_mode_hwfifo : ℕ
  pub etb_flfmt_ctrl : ℕ
  pub etb_flfmt_ctrl_fonman : ℕ
  pub etb_flfmt_ctrl_stopfl : ℕ
  pub etb_status : ℕ
  pub etb_status_ftempty : ℕ
  pub etmc_trace_enable : ℕ
  pub etmc_config : ℕ
  pub etmc_eventselect : ℕ
  pub etmc_cxid_comp : ℕ
  pub etmc_addr_comp : ℕ
  pub etmc_all : ℕ
  -- CS_ETMV4_ACATR_ExEL0_S | ... | CS_ETMV4_ACATR_ExEL2_NS
  pub acatr_excluded : ℕ

-- What the code outside the repository answers. Each answer may depend on all calls made before, the
-- newest first, so an environment may fail at any call and change its mind.
pub record Env : Type 0 where
  pub headers : Headers
  -- the C library's stream
  pub stderr : ℤ
  -- the value that a call returns
  pub ret : List Call → Call → ℤ
  -- the bytes that a call writes through a pointer
  pub out : List Call → Call → List ℕ
  -- CS_ETMVERSION_MAJOR
  pub version_major : ℤ → ℕ
  -- CS_ETMVERSION_IS_ETMV4
  pub version_is_etmv4 : ℤ → Bool
  -- what `cs_etm_config_init_ex` and `cs_etm_config_get_ex` leave in the structure
  pub config_init : List Call → Device → EtmConfig
  pub config_get : List Call → Device → EtmConfig → EtmConfig
  -- what `setup_named_board` stores on success
  pub board : List Call → Board
  pub devices : List Call → Devices

-- `trace_state_t`
pub data TraceState : Type 0 where
  init_state fini_state ready_state running_state suspended_state : TraceState

-- `trace_event_t`
pub data TraceEvent : Type 0 where
  init_event fini_event ready_event start_event stop_event suspend_event resume_event : TraceEvent

-- A growing buffer: the mapping's address, its size, the write pointer, and the byte at each offset
-- from the address.
pub record Buffer : Type 0 where
  pub base : ℕ
  pub size : ℕ
  pub ptr : ℕ
  pub bytes : ℕ → ℕ

pub record Machine : Type 0 where
  pub log : List Call
  pub board_name : List ℕ
  pub board : Option Board
  pub devices : Devices
  pub udmabuf_num : ℤ
  pub trace_cpu : ℤ
  pub export_config : Bool
  pub fetcher_on : Bool
  pub etr_ram_addr : ℕ
  pub etr_ram_size : ℕ
  pub ksight_on : Bool
  pub ksight_ram_addr : ℕ
  pub range_count : ℤ
  pub map_info : List MapInfo
  pub trace_id : ℤ
  pub child_pid : ℤ
  pub is_first_trace : Bool
  pub trace_buf : Buffer
  pub ksight_buf : Buffer
  pub fetcher_ready : Bool
  pub trace_state : TraceState
  pub trace_event : TraceEvent
  pub registration_verbose : ℤ
