-- ===== src/Pdelay/Request/Machine.antt =====
-- The loop and the handlers of the MDPdelayReq machine (time_sync/md_pdelay_req_sm.c).
use ziggo_caa_s_switch.Prelude.{
  ℕ, zero, suc, Bool, true, false, not, ◌||◌, List, [], ◌∷◌, ◌++◌, some, ◌==◌, if◌then◌else◌,
}
use ziggo_caa_s_switch.Ptp.ScaledNs.{UScaledNs, uscaledns_ptpmsgtimestamp}
use ziggo_caa_s_switch.Pdelay.Messages.{PtpMsgPdelayResp, PtpMsgPdelayRespFollowUp, TsuTimestamp}
use ziggo_caa_s_switch.Frame.{PtpFrameHeader}
use ziggo_caa_s_switch.Pdelay.Request.{
  State, init, not_enabled, initial_send_pdelay_req, waiting_for_pdelay_resp,
  waiting_for_pdelay_resp_follow_up, waiting_for_pdelay_interval_timer, reset, send_pdelay_req,
  before_init, ordinal, MdPdelayReqSm, go, Outcome, done, exit_failure, stuck, undefined,
  out_of_fuel, all_state_transition, not_enabled_state_transition,
  initial_send_pdelay_req_state_transition, reset_action, send_pdelay_req_state_transition,
}
use ziggo_caa_s_switch.Pdelay.Request.Actions.{
  initial_send_pdelay_req_action, send_pdelay_req_action, frame_of,
  waiting_for_pdelay_resp_state_transition, waiting_for_pdelay_resp_follow_up_state_transition, go?,
  reset_state_transition, waiting_for_pdelay_interval_timer_state_transition,
  waiting_for_pdelay_interval_timer_action, leave_interval,
}

abbrev pub run_fuel : ℕ
run_fuel = 13

module _ (random : ℕ) (ts : UScaledNs) where
  -- The `switch`, by the state: the action on a change of state, and the transition.
  unfoldable pub run_state : State → Bool → MdPdelayReqSm → Outcome
  run_state before_init change sm = done sm []
  run_state init change sm = done (go not_enabled sm) []
  run_state not_enabled change sm = done (go (not_enabled_state_transition sm) sm) []
  run_state initial_send_pdelay_req change sm =
      if change
      then (let s = initial_send_pdelay_req_action random ts sm in
          done (go (initial_send_pdelay_req_state_transition s) s) (frame_of s ∷ []))
      else done (go (initial_send_pdelay_req_state_transition sm) sm) []
  run_state reset change sm =
      let s = (if change then reset_action sm else sm) in
      done (go (reset_state_transition ts s) s) []
  run_state send_pdelay_req change sm =
      if change
      then (let s = send_pdelay_req_action ts sm in
          done (go (send_pdelay_req_state_transition s) s) (frame_of s ∷ []))
      else done (go (send_pdelay_req_state_transition sm) sm) []
  run_state waiting_for_pdelay_resp change sm =
      let s = (if change then record sm { rcvd_md_timestamp_receive_md_preq = false } else sm) in
      go? (waiting_for_pdelay_resp_state_transition ts s) s
  run_state waiting_for_pdelay_resp_follow_up change sm =
      let s = (if change then record sm { rcvd_pdelay_resp = false } else sm) in
      go? (waiting_for_pdelay_resp_follow_up_state_transition ts s) s
  run_state waiting_for_pdelay_interval_timer change sm =
      if change
      then leave_interval ts (waiting_for_pdelay_interval_timer_action sm)
      else done (go (waiting_for_pdelay_interval_timer_state_transition ts sm) sm) []

  unfoldable pub round : MdPdelayReqSm → Outcome
  round sm =
      run_state sm.state (not (ordinal sm.state == ordinal sm.last_state))
        (record sm { last_state = sm.state })

  unfoldable pub run_loop : ℕ → MdPdelayReqSm → List (ℕ × PtpFrameHeader) → Outcome
  run_loop zero sm sent = out_of_fuel
  run_loop (suc fuel) sm sent = elim (round sm) [
    | done sm' frames ↦
        let rest = run_loop fuel sm' (sent ++ frames) in
        if ordinal sm'.state == ordinal sm'.last_state then done sm' (sent ++ frames) else rest
    | exit_failure s ↦ exit_failure s
    | stuck s ↦ stuck s
    | undefined ↦ undefined
    | out_of_fuel ↦ out_of_fuel
  ]

  unfoldable pub md_pdelay_req_sm_run : MdPdelayReqSm → Outcome
  md_pdelay_req_sm_run sm = run_loop run_fuel (go (all_state_transition sm) sm) []

  unfoldable pub md_pdelay_req_sm_txts : TsuTimestamp → MdPdelayReqSm → Outcome
  md_pdelay_req_sm_txts stamp sm =
      if (ordinal sm.state == 7) || (ordinal sm.state == 2)
      then (if stamp.sequence_id == sm.pdelay_req_sequence_id
          then md_pdelay_req_sm_run
              (record sm { t1 = stamp.ts; rcvd_md_timestamp_receive_md_preq = true })
          else done sm [])
      else done sm []

  -- `t4` is written after the run.
  unfoldable pub md_pdelay_req_sm_recv_resp :
      TsuTimestamp → PtpMsgPdelayResp → MdPdelayReqSm → Outcome
  md_pdelay_req_sm_recv_resp stamp resp sm =
      elim (md_pdelay_req_sm_run (record sm {
        rcvd_pdelay_resp = true;
        rcvd_pdelay_resp_ptr = some resp;
        t2 = uscaledns_ptpmsgtimestamp resp.request_receipt_timestamp;
      })) [
        | done s frames ↦ done (record s { t4 = stamp.ts }) frames
        | exit_failure s ↦ exit_failure s
        | stuck s ↦ stuck s
        | undefined ↦ undefined
        | out_of_fuel ↦ out_of_fuel
      ]

  unfoldable pub md_pdelay_req_sm_recv_resp_follow_up :
      PtpMsgPdelayRespFollowUp → MdPdelayReqSm → Outcome
  md_pdelay_req_sm_recv_resp_follow_up follow sm = md_pdelay_req_sm_run (record sm {
    rcvd_pdelay_resp_follow_up = true;
    rcvd_pdelay_resp_follow_up_ptr = some follow;
    t3 = uscaledns_ptpmsgtimestamp follow.response_origin_timestamp;
  })

-- The fields that the initialisation leaves alone keep what the memory holds.
unfoldable pub init_md_pdelay_req_sm : ℕ → MdPdelayReqSm → Outcome
init_md_pdelay_req_sm random sm =
    md_pdelay_req_sm_run random (record { subns = 0; nsec = 0; nsec_msb = 0 })
      (record sm {
        port_enabled0 = true;
        state = init;
        last_state = before_init;
        list_head_prop_time = 0;
        list_tail_prop_time = 63;
        is_empty_prop_time = true;
      })
