-- ===== src/Ptp/Globals.antt =====
-- The state that the state machines share (tsn_drivers/ptp_types.h): the fields of
-- `PerPortGlobal` and `PerPTPInstanceGlobal` that the modelled machines read or write. The eight
-- fields `leap61` to `timeSource`, which both structs hold and copy together (with prefixes `ann`
-- and `sys`), are one record here.
use ziggo_caa_s_switch.Prelude.{ℤ, ℕ, Bool, List}
use ziggo_caa_s_switch.Ptp.ScaledNs.{UScaledNs}
use ziggo_caa_s_switch.Ptp.Priority.{PriorityVector}
use ziggo_caa_s_switch.Ptp.Doubles.{Double}

abbrev pub n_ports : ℕ
n_ports = 4

abbrev pub max_path_trace_n : ℕ
max_path_trace_n = 8

pub data PortState : Type 0 where
  master_port slave_port passive_port disabled_port : PortState

pub data BmcsInfoIs : Type 0 where
  received mine aged disabled : BmcsInfoIs

pub data BmcsRcvdInfo : Type 0 where
  repeated_master_info superior_master_info inferior_master_info other_info : BmcsRcvdInfo

pub record TimeProperties : Type 0 where
  pub leap61 : Bool
  pub leap59 : Bool
  pub current_utc_offset_valid : Bool
  pub ptp_timescale : Bool
  pub time_traceable : Bool
  pub frequency_traceable : Bool
  pub current_utc_offset : ℕ  -- the bit pattern of an int16_t
  pub time_source : ℕ

pub record PerPortGlobal : Type 0 where
  pub as_capable : Bool
  pub asymmetry_measurement_mode : Bool
  pub sync_receipt_timeout_time_interval : UScaledNs
  pub neighbor_rate_ratio : Double
  pub mean_link_delay : UScaledNs
  pub compute_neighbor_rate_ratio : Bool
  pub compute_mean_link_delay : Bool
  pub port_oper : Bool
  pub ptp_port_enabled : Bool
  pub this_port : ℕ
  pub announce_receipt_timeout : ℕ  -- uint16_t
  pub announce_receipt_timeout_time_interval : UScaledNs
  pub info_is : BmcsInfoIs
  pub master_priority : PriorityVector
  pub current_log_announce_interval : ℤ  -- int8_t
  pub initial_log_announce_interval : ℕ  -- int8_t, not negative
  pub announce_interval : UScaledNs
  pub new_info : Bool
  pub port_priority : PriorityVector
  pub port_steps_removed : ℕ  -- uint16_t
  pub rcvd_msg : Bool
  pub updt_info : Bool
  pub ann_time : TimeProperties
  pub ann_path_sequence_count : ℕ  -- uint8_t
  pub ann_path_sequence : List (List ℕ)

pub record PerPtpInstanceGlobal : Type 0 where
  pub begin : Bool
  pub instance_enable : Bool
  pub gm_present : Bool
  pub selected_state : List PortState
  pub this_clock : List ℕ
  pub sync_receipt_timeout_time : UScaledNs
  pub reselect : List Bool
  pub selected : List Bool
  pub master_steps_removed : ℕ  -- uint16_t
  pub time : TimeProperties
  pub sys_time : TimeProperties
  pub system_priority : PriorityVector
  pub gm_priority : PriorityVector
  pub last_gm_priority : PriorityVector
  pub gm_steps_removed : ℕ  -- uint16_t
  pub n_path_trace : ℕ  -- uint16_t
  pub path_trace : List (List ℕ)
  pub external_port_configuration_enabled : Bool
  pub gm_identity : List ℕ

pub record MdEntityGlobal : Type 0 where
  pub is_measuring_delay : Bool
  pub as_capable_across_domains : Bool
  pub allowed_lost_responses : ℕ  -- uint8_t
  pub pdelay_req_interval : UScaledNs
  pub mean_link_delay_thresh : UScaledNs
  pub allowed_faults : ℕ  -- uint8_t
  pub sync_sequence_id : ℕ  -- uint16_t
