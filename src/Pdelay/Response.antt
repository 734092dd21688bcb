-- ===== src/Pdelay/Response.antt =====
-- The MDPdelayResp machine of one port (time_sync/md_pdelay_resp_sm.c). The pointer to the request is an
-- option; reading through NULL is undefined. A frame that is sent is its port and the frame.
pub mod Ending
pub mod Reached
pub mod Serving
use ziggo_caa_s_switch.Prelude.{
  ℕ, zero, suc, Bool, true, false, not, ◌||◌, List, [], ◌∷◌, ◌++◌, Option, none, some, ◌==◌,
  if◌then◌else◌, replicate,
}
use ziggo_caa_s_switch.Ptp.ScaledNs.{UScaledNs, ptpmsgtimestamp_uscaledns}
use ziggo_caa_s_switch.Ptp.Globals.{PerPortGlobal, PerPtpInstanceGlobal}
use ziggo_caa_s_switch.Frame.{
  PortIdentity, ptp_msg_header_template, pdelay_resp, pdelay_resp_follow_up,
}
use ziggo_caa_s_switch.Pdelay.Messages.{
  PtpMsgPdelayReq, PtpMsgPdelayResp, PtpMsgPdelayRespFollowUp, TsuTimestamp, size_of_pdelay_resp,
}
use ziggo_caa_s_switch.Pdelay.Frames.{
  PtpFramePdelayResp, PtpFramePdelayRespFollowUp, frame_pdelay_resp, frame_pdelay_resp_follow_up,
}

pub data State : Type 0 where
  init not_enabled initial_waiting_for_pdelay_req : State
  sent_pdelay_resp_waiting_for_timestamp waiting_for_pdelay_req before_init : State

abbrev pub ordinal : State → ℕ
ordinal init = 0
ordinal not_enabled = 1
ordinal initial_waiting_for_pdelay_req = 2
ordinal sent_pdelay_resp_waiting_for_timestamp = 3
ordinal waiting_for_pdelay_req = 4
ordinal before_init = 5

pub record MdPdelayRespSm : Type 0 where
  pub rcvd_pdelay_req : Bool
  pub rcvd_md_timestamp_receive_md_presp : Bool
  pub tx_pdelay_resp_ptr : Option PtpMsgPdelayResp
  pub tx_pdelay_resp_follow_up_ptr : Option PtpMsgPdelayRespFollowUp
  pub port_enabled1 : Bool
  pub port : PerPortGlobal
  pub instance_global : PerPtpInstanceGlobal
  pub rcvd_pdelay_req_ptr : Option PtpMsgPdelayReq
  pub t2 : UScaledNs
  pub t3 : UScaledNs
  pub state : State
  pub last_state : State

-- A frame that is sent to a port.
pub data Sent : Type 0 where
  resp : ℕ → PtpFramePdelayResp → Sent
  follow_up : ℕ → PtpFramePdelayRespFollowUp → Sent

pub data Outcome : Type 0 where
  done : MdPdelayRespSm → List Sent → Outcome
  undefined : Outcome
  out_of_fuel : Outcome

abbrev pub go : State → MdPdelayRespSm → MdPdelayRespSm
go s sm = record sm { state = s }

-- The default clock identity, which is zero, and the port.
abbrev pub source : MdPdelayRespSm → PortIdentity
source sm = record { clock_identity = replicate 8 0; port_number = sm.port.this_port }

unfoldable pub set_pdelay_resp : MdPdelayRespSm → PtpMsgPdelayReq → PtpMsgPdelayResp
set_pdelay_resp sm req = record {
  head =
      ptp_msg_header_template pdelay_resp size_of_pdelay_resp (source sm) req.head.sequence_id 0 0;
  request_receipt_timestamp = ptpmsgtimestamp_uscaledns sm.t2;
  requesting_port_identity = req.head.source_port_identity;
}

unfoldable pub set_pdelay_resp_follow_up :
    MdPdelayRespSm → PtpMsgPdelayReq → PtpMsgPdelayRespFollowUp
set_pdelay_resp_follow_up sm req = record {
  head =
      ptp_msg_header_template pdelay_resp_follow_up size_of_pdelay_resp (source sm)
        req.head.sequence_id 0 0;
  response_origin_timestamp = ptpmsgtimestamp_uscaledns sm.t3;
  requesting_port_identity = req.head.source_port_identity;
}

unfoldable pub all_state_transition : MdPdelayRespSm → State
all_state_transition sm =
    if sm.instance_global.begin || not sm.port.port_oper || not sm.port_enabled1
    then not_enabled
    else sm.state

unfoldable pub not_enabled_state_transition : MdPdelayRespSm → State
not_enabled_state_transition sm =
    if sm.port_enabled1 then initial_waiting_for_pdelay_req else not_enabled

unfoldable pub initial_waiting_for_pdelay_req_state_transition : MdPdelayRespSm → State
initial_waiting_for_pdelay_req_state_transition sm =
    if sm.rcvd_pdelay_req
    then sent_pdelay_resp_waiting_for_timestamp
    else initial_waiting_for_pdelay_req

-- `sent_pdelay_resp_waiting_for_timestamp_action`.
unfoldable pub sent_pdelay_resp_action : MdPdelayRespSm → Outcome
sent_pdelay_resp_action sm = elim sm.rcvd_pdelay_req_ptr [
  | none ↦ undefined
  | some req ↦
      done
        (record sm { rcvd_pdelay_req = false; tx_pdelay_resp_ptr = some (set_pdelay_resp sm req) })
        (resp sm.port.this_port (frame_pdelay_resp (set_pdelay_resp sm req)) ∷ [])
]

unfoldable pub sent_pdelay_resp_state_transition : MdPdelayRespSm → State
sent_pdelay_resp_state_transition sm =
    if sm.rcvd_md_timestamp_receive_md_presp
    then waiting_for_pdelay_req
    else sent_pdelay_resp_waiting_for_timestamp

-- All messages are freed, and their pointers set to NULL.
unfoldable pub waiting_for_pdelay_req_action : MdPdelayRespSm → Outcome
waiting_for_pdelay_req_action sm = elim sm.rcvd_pdelay_req_ptr [
  | none ↦ undefined
  | some req ↦
      done
        (record sm {
          rcvd_md_timestamp_receive_md_presp = false;
          rcvd_pdelay_req_ptr = none;
          tx_pdelay_resp_ptr = none;
          tx_pdelay_resp_follow_up_ptr = none;
        })
        (follow_up sm.port.this_port
            (frame_pdelay_resp_follow_up (set_pdelay_resp_follow_up sm req))
          ∷ [])
]

unfoldable pub waiting_for_pdelay_req_state_transition : MdPdelayRespSm → State
waiting_for_pdelay_req_state_transition sm =
    if sm.rcvd_pdelay_req then sent_pdelay_resp_waiting_for_timestamp else waiting_for_pdelay_req

-- The transition behind an action.
abbrev pub leave : (MdPdelayRespSm → State) → Outcome → Outcome
leave f (done sm sent) = done (go (f sm) sm) sent
leave f undefined = undefined
leave f out_of_fuel = out_of_fuel

-- The `switch`, by the state: the action on a change of state, and the transition.
unfoldable pub run_state : State → Bool → MdPdelayRespSm → Outcome
run_state before_init change sm = done sm []
run_state init change sm = done (go not_enabled sm) []
run_state not_enabled change sm = done (go (not_enabled_state_transition sm) sm) []
run_state initial_waiting_for_pdelay_req change sm =
    let s =
      (if change
        then record sm { rcvd_pdelay_req = false; rcvd_md_timestamp_receive_md_presp = false }
        else sm) in
    done (go (initial_waiting_for_pdelay_req_state_transition s) s) []
run_state sent_pdelay_resp_waiting_for_timestamp change sm =
    leave sent_pdelay_resp_state_transition
      (if change then sent_pdelay_resp_action sm else done sm [])
run_state waiting_for_pdelay_req change sm =
    leave waiting_for_pdelay_req_state_transition
      (if change then waiting_for_pdelay_req_action sm else done sm [])

unfoldable pub round : MdPdelayRespSm → Outcome
round sm =
    run_state sm.state (not (ordinal sm.state == ordinal sm.last_state))
      (record sm { last_state = sm.state })

unfoldable pub run_loop : ℕ → MdPdelayRespSm → List Sent → Outcome
run_loop zero sm sent = out_of_fuel
run_loop (suc fuel) sm sent = elim (round sm) [
  | done sm' frames ↦
      let rest = run_loop fuel sm' (sent ++ frames) in
      if ordinal sm'.state == ordinal sm'.last_state then done sm' (sent ++ frames) else rest
  | undefined ↦ undefined
  | out_of_fuel ↦ out_of_fuel
]

abbrev pub run_fuel : ℕ
run_fuel = 6

unfoldable pub md_pdelay_resp_sm_run : MdPdelayRespSm → Outcome
md_pdelay_resp_sm_run sm = run_loop run_fuel (go (all_state_transition sm) sm) []

-- The time stamp of the sent response; the request is read only in this state.
unfoldable pub md_pdelay_resp_sm_txts : TsuTimestamp → MdPdelayRespSm → Outcome
md_pdelay_resp_sm_txts stamp sm =
    if not (ordinal sm.state == 3) then done sm [] else elim sm.rcvd_pdelay_req_ptr [
      | none ↦ undefined
      | some req ↦
          if stamp.sequence_id == req.head.sequence_id
          then md_pdelay_resp_sm_run
              (record sm { t3 = stamp.ts; rcvd_md_timestamp_receive_md_presp = true })
          else done sm []
    ]

unfoldable pub md_pdelay_resp_sm_recv_req :
    TsuTimestamp → PtpMsgPdelayReq → MdPdelayRespSm → Outcome
md_pdelay_resp_sm_recv_req stamp req sm =
    md_pdelay_resp_sm_run
      (record sm { rcvd_pdelay_req = true; rcvd_pdelay_req_ptr = some req; t2 = stamp.ts })

unfoldable pub init_md_pdelay_resp_sm : MdPdelayRespSm → Outcome
init_md_pdelay_resp_sm sm = md_pdelay_resp_sm_run (record sm {
  state = init;
  last_state = before_init;
  port_enabled1 = true;
  rcvd_pdelay_req_ptr = none;
})
