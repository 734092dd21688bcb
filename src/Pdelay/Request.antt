-- ===== src/Pdelay/Request.antt =====
-- The MDPdelayReq machine of one port (time_sync/md_pdelay_req_sm.c). A pointer is an option, `none`
-- where it is not set or its block is freed; reading or freeing through it is then undefined. A frame
-- that is sent is its port and its header, behind which the frame is zero. The random sequence id and the
-- time of the run are parameters.
pub mod Actions
pub mod Machine
pub mod PropTime
pub mod Validity
pub mod Measuring
pub mod Safety
pub mod Steps
pub mod Measured
pub mod Calls
pub mod Exchange
pub mod Late
pub mod Timer
pub mod Reachable
use ziggo_caa_s_switch.Prelude.{
  ℕ, ◌+◌, ◌%◌, Bool, true, false, not, ◌&&◌, ◌||◌, List, Option, none, some, leb, ◌==◌,
  if◌then◌else◌, get_or, set, negative, nonpos, u16,
}
use ziggo_caa_s_switch.Ptp.ScaledNs.{
  UScaledNs, uscaledns_subtract, uscaledns_compare, uscaledns_divide_by_2,
}
use ziggo_caa_s_switch.Ptp.Quotient.{uscaledns_div}
use ziggo_caa_s_switch.Ptp.Doubles.{Double, one, uscaledns_mul_double, is_off_one}
use ziggo_caa_s_switch.Ptp.Globals.{PerPortGlobal, PerPtpInstanceGlobal, MdEntityGlobal}
use ziggo_caa_s_switch.Frame.{
  PtpFrameHeader, set_ptp_frame_header, ptp_msg_header_template, pdelay_req,
}
use ziggo_caa_s_switch.Pdelay.Messages.{
  PtpMsgPdelayReq, PtpMsgPdelayResp, PtpMsgPdelayRespFollowUp, same_clock, port_identity_equal,
  size_of_pdelay_req,
}

pub data State : Type 0 where
  init not_enabled initial_send_pdelay_req waiting_for_pdelay_resp : State
  waiting_for_pdelay_resp_follow_up waiting_for_pdelay_interval_timer : State
  reset send_pdelay_req before_init : State

abbrev pub ordinal : State → ℕ
ordinal init = 0
ordinal not_enabled = 1
ordinal initial_send_pdelay_req = 2
ordinal waiting_for_pdelay_resp = 3
ordinal waiting_for_pdelay_resp_follow_up = 4
ordinal waiting_for_pdelay_interval_timer = 5
ordinal reset = 6
ordinal send_pdelay_req = 7
ordinal before_init = 8

abbrev pub max_length : ℕ
max_length = 64

pub record MdPdelayReqSm : Type 0 where
  pub pdelay_interval_timer : UScaledNs
  pub rcvd_pdelay_resp : Bool
  pub rcvd_pdelay_resp_ptr : Option PtpMsgPdelayResp
  pub rcvd_pdelay_resp_follow_up : Bool
  pub rcvd_pdelay_resp_follow_up_ptr : Option PtpMsgPdelayRespFollowUp
  pub tx_pdelay_req_ptr : Option PtpMsgPdelayReq
  pub rcvd_md_timestamp_receive_md_preq : Bool
  pub pdelay_req_sequence_id : ℕ  -- uint16_t
  pub lost_responses : ℕ  -- uint16_t
  pub neighbor_rate_ratio_valid : Bool
  pub detected_faults : ℕ  -- uint16_t
  pub port_enabled0 : Bool
  pub port : PerPortGlobal
  pub instance_global : PerPtpInstanceGlobal
  pub md_entity : MdEntityGlobal
  pub t1 : UScaledNs
  pub t2 : UScaledNs
  pub t3 : UScaledNs
  pub t4 : UScaledNs
  pub pdelay_resp_event_ingress_timestamps : List UScaledNs
  pub corrected_responder_event_timestamps : List UScaledNs
  pub list_head_prop_time : ℕ
  pub list_tail_prop_time : ℕ
  pub is_empty_prop_time : Bool
  pub state : State
  pub last_state : State

abbrev pub go : State → MdPdelayReqSm → MdPdelayReqSm
go s sm = record sm { state = s }

-- The machine and the frames that it has sent, or why there is none. `exit_failure` is the end of the
-- process by `exit(EXIT_FAILURE)` in `computePropTime`, and `stuck` a call of `uscaledns_div` that does
-- not return, each with the machine that makes the call.
pub data Outcome : Type 0 where
  done : MdPdelayReqSm → List (ℕ × PtpFrameHeader) → Outcome
  exit_failure : MdPdelayReqSm → Outcome
  stuck : MdPdelayReqSm → Outcome
  undefined : Outcome
  out_of_fuel : Outcome

unfoldable pub set_pdelay_req : MdPdelayReqSm → PtpMsgPdelayReq
set_pdelay_req sm = record {
  head =
      ptp_msg_header_template pdelay_req size_of_pdelay_req
        (record { clock_identity = sm.instance_global.this_clock; port_number = sm.port.this_port })
        sm.pdelay_req_sequence_id 0 0;
}

unfoldable pub tx_pdelay_req : MdPdelayReqSm → PtpMsgPdelayReq → ℕ × PtpFrameHeader
tx_pdelay_req sm req = (sm.port.this_port, set_ptp_frame_header req.head)

-- A reading of one of the lists, whose positions stay below their 64 entries.
abbrev pub stamp : List UScaledNs → ℕ → UScaledNs
stamp xs i = get_or xs i (record { subns = 0; nsec = 0; nsec_msb = 0 })

unfoldable pub md_pdelay_add_resp_and_resp_follow_up_timestamp : MdPdelayReqSm → MdPdelayReqSm
md_pdelay_add_resp_and_resp_follow_up_timestamp sm =
    let next = (sm.list_tail_prop_time + 1) % max_length in
    record sm {
      pdelay_resp_event_ingress_timestamps = set sm.pdelay_resp_event_ingress_timestamps next sm.t4;
      corrected_responder_event_timestamps = set sm.corrected_responder_event_timestamps next sm.t3;
      is_empty_prop_time = false;
      list_head_prop_time =
          (if not sm.is_empty_prop_time && (sm.list_head_prop_time == next)
            then (sm.list_head_prop_time + 1) % max_length
            else sm.list_head_prop_time);
      list_tail_prop_time = next;
    }

unfoldable pub compute_prop_time : MdPdelayReqSm → Option UScaledNs
compute_prop_time sm =
    let t4_1 = uscaledns_subtract sm.t4 sm.t1 in
    let t3_2 = uscaledns_subtract sm.t3 sm.t2 in
    let r_t4_1 = uscaledns_mul_double t4_1 sm.port.neighbor_rate_ratio in
    if negative (uscaledns_compare sm.t4 sm.t1)
    then none
    else (if negative (uscaledns_compare r_t4_1 t3_2)
        then none
        else some (uscaledns_divide_by_2 (uscaledns_subtract r_t4_1 t3_2)))

unfoldable pub all_state_transition : MdPdelayReqSm → State
all_state_transition sm =
    if sm.instance_global.begin || not sm.port.port_oper || not sm.port_enabled0
    then not_enabled
    else sm.state

unfoldable pub not_enabled_state_transition : MdPdelayReqSm → State
not_enabled_state_transition sm =
    if sm.port.port_oper && sm.port_enabled0 then initial_send_pdelay_req else not_enabled

unfoldable pub initial_send_pdelay_req_state_transition : MdPdelayReqSm → State
initial_send_pdelay_req_state_transition sm =
    if sm.rcvd_md_timestamp_receive_md_preq
    then waiting_for_pdelay_resp
    else initial_send_pdelay_req

unfoldable pub reset_action : MdPdelayReqSm → MdPdelayReqSm
reset_action sm =
    if leb sm.lost_responses sm.md_entity.allowed_lost_responses
    then record sm { rcvd_pdelay_resp = false; lost_responses = u16 (sm.lost_responses + 1) }
    else record sm {
      rcvd_pdelay_resp = false;
      md_entity = record sm.md_entity {
        is_measuring_delay = false;
        as_capable_across_domains = false;
      };
    }

unfoldable pub send_pdelay_req_state_transition : MdPdelayReqSm → State
send_pdelay_req_state_transition sm =
    if sm.rcvd_md_timestamp_receive_md_preq then waiting_for_pdelay_resp else send_pdelay_req

-- The tests of a received response and a follow-up against the request and the port.
unfoldable pub is_response_to : MdPdelayReqSm → PtpMsgPdelayReq → PtpMsgPdelayResp → Bool
is_response_to sm req resp =
    (resp.head.sequence_id == req.head.sequence_id)
    && same_clock resp.requesting_port_identity.clock_identity sm.instance_global.this_clock
    && (resp.requesting_port_identity.port_number == sm.port.this_port)

-- The sequence id of the follow-up is tested before this.
unfoldable pub is_follow_up_to : MdPdelayReqSm → PtpMsgPdelayResp → PtpMsgPdelayRespFollowUp → Bool
is_follow_up_to sm resp follow =
    port_identity_equal follow.head.source_port_identity resp.head.source_port_identity
    || (same_clock resp.requesting_port_identity.clock_identity sm.instance_global.this_clock
        && (resp.requesting_port_identity.port_number == sm.port.this_port))

-- The ratio, and the machine with the list cut to its last entry where the ratio is no ratio; or none,
-- where `uscaledns_div` does not return.
unfoldable pub compute_pdelay_rate_ratio : MdPdelayReqSm → Option (Double × MdPdelayReqSm)
compute_pdelay_rate_ratio sm =
    if sm.is_empty_prop_time || (sm.list_tail_prop_time == sm.list_head_prop_time)
    then some (one, sm)
    else elim (uscaledns_div
        (uscaledns_subtract (stamp sm.corrected_responder_event_timestamps sm.list_tail_prop_time)
          (stamp sm.corrected_responder_event_timestamps sm.list_head_prop_time))
        (uscaledns_subtract (stamp sm.pdelay_resp_event_ingress_timestamps sm.list_tail_prop_time)
          (stamp sm.pdelay_resp_event_ingress_timestamps sm.list_head_prop_time))) [
            | none ↦ none
            | some r ↦ some (
                if is_off_one r
                then (one, record sm { list_head_prop_time = sm.list_tail_prop_time })
                else (r, sm))
          ]

unfoldable pub update_rate_ratio : MdPdelayReqSm → Option MdPdelayReqSm
update_rate_ratio sm =
    if sm.port.compute_neighbor_rate_ratio
    then elim (compute_pdelay_rate_ratio sm) [
      | none ↦ none
      | some (r, sm') ↦ some (record sm' { port = record sm'.port { neighbor_rate_ratio = r } })
    ]
    else some sm

unfoldable pub update_mean_link_delay : MdPdelayReqSm → Option MdPdelayReqSm
update_mean_link_delay sm =
    if sm.port.compute_mean_link_delay
    then elim (compute_prop_time sm) [
      | none ↦ none
      | some d ↦ some (record sm { port = record sm.port { mean_link_delay = d } })
    ]
    else some sm

-- The last part of the action: the neighbour is near and another clock, another clock, or this one.
unfoldable pub judge_response : PtpMsgPdelayResp → MdPdelayReqSm → MdPdelayReqSm
judge_response resp sm =
    let foreign =
      not
        (same_clock resp.head.source_port_identity.clock_identity sm.instance_global.this_clock) in
    let md = sm.md_entity in
    if nonpos (uscaledns_compare sm.port.mean_link_delay md.mean_link_delay_thresh)
      && foreign
      && sm.neighbor_rate_ratio_valid
    then record sm {
      md_entity = record md { as_capable_across_domains = true };
      detected_faults = 0;
    }
    else (if foreign
        then record sm {
          md_entity = record md { as_capable_across_domains = false };
          detected_faults = 0;
        }
        else (if leb sm.detected_faults md.allowed_faults
            then record sm { detected_faults = u16 (sm.detected_faults + 1) }
            else record sm {
              md_entity = record md {
                as_capable_across_domains = false;
                is_measuring_delay = false;
              };
              detected_faults = 0;
            }))
