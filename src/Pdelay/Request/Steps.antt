-- ===== src/Pdelay/Request/Steps.antt =====
-- Single rounds of the MDPdelayReq machine with its state written out (time_sync/md_pdelay_req_sm.c).
use ziggo_caa_s_switch.Prelude.{ℕ, suc, ◌≡◌, refl, true, false, ◌==◌, List, [], ◌++◌, some, nonneg}
use ziggo_caa_s_switch.Ptp.ScaledNs.{UScaledNs, uscaledns_subtract, uscaledns_compare}
use ziggo_caa_s_switch.Frame.{PtpFrameHeader}
use ziggo_caa_s_switch.Pdelay.Messages.{PtpMsgPdelayReq, PtpMsgPdelayResp, PtpMsgPdelayRespFollowUp}
use ziggo_caa_s_switch.Pdelay.Request.{
  State, initial_send_pdelay_req, waiting_for_pdelay_resp, waiting_for_pdelay_resp_follow_up,
  waiting_for_pdelay_interval_timer, send_pdelay_req, ordinal, MdPdelayReqSm, done,
  initial_send_pdelay_req_state_transition, send_pdelay_req_state_transition, is_response_to,
  is_follow_up_to,
}
use ziggo_caa_s_switch.Pdelay.Request.Actions.{
  is_due, waiting_for_pdelay_resp_state_transition,
  waiting_for_pdelay_resp_follow_up_state_transition, is_repeated, is_followed_up, answered,
}
use ziggo_caa_s_switch.Pdelay.Request.Machine.{run_state, round, run_loop}

abbrev pub at : State → State → MdPdelayReqSm → MdPdelayReqSm
at s l sm = record sm { state = s; last_state = l }

module _ (random : ℕ) (ts : UScaledNs) where
  pub loop_stop :
      (k : ℕ) (sm s : MdPdelayReqSm) (sent frames : List (ℕ × PtpFrameHeader))
      → round random ts sm ≡ done s frames
      → (ordinal s.state == ordinal s.last_state) ≡ true
      → run_loop random ts (suc k) sm sent ≡ done s (sent ++ frames)
  unfolding run_loop
  loop_stop k sm s sent frames e stop = rw (run_loop, e) (rw stop refl)

  pub loop_more :
      (k : ℕ) (sm s : MdPdelayReqSm) (sent frames : List (ℕ × PtpFrameHeader))
      → round random ts sm ≡ done s frames
      → (ordinal s.state == ordinal s.last_state) ≡ false
      → run_loop random ts (suc k) sm sent ≡ run_loop random ts k s (sent ++ frames)
  unfolding run_loop
  loop_more k sm s sent frames e more = rw (run_loop, e) (rw more refl)

  module _ (sm : MdPdelayReqSm) where
    -- The time stamp of the request has come.
    pub round_sent_first :
        sm.rcvd_md_timestamp_receive_md_preq ≡ true
        → round random ts (at initial_send_pdelay_req initial_send_pdelay_req sm)
          ≡ done (at waiting_for_pdelay_resp initial_send_pdelay_req sm) []
    unfolding round run_state initial_send_pdelay_req_state_transition
    round_sent_first e = rw (round, run_state, e) refl

    pub round_sent :
        sm.rcvd_md_timestamp_receive_md_preq ≡ true
        → round random ts (at send_pdelay_req send_pdelay_req sm)
          ≡ done (at waiting_for_pdelay_resp send_pdelay_req sm) []
    unfolding round run_state send_pdelay_req_state_transition
    round_sent e = rw (round, run_state, e) refl

    -- The interval has not passed.
    abbrev pub IsEarly : Type 0
    IsEarly =
        nonneg (
          uscaledns_compare (uscaledns_subtract ts sm.pdelay_interval_timer)
            sm.md_entity.pdelay_req_interval)
        ≡ false

    pub round_wait :
        (l : State)
        → (3 == ordinal l) ≡ false
        → IsEarly
        → round random ts (at waiting_for_pdelay_resp l (record sm { rcvd_pdelay_resp = false }))
          ≡ done
              (at waiting_for_pdelay_resp waiting_for_pdelay_resp
                (record sm { rcvd_pdelay_resp = false; rcvd_md_timestamp_receive_md_preq = false }))
              []
    unfolding round run_state waiting_for_pdelay_resp_state_transition is_due
    round_wait l n e = rw (round, run_state, n, e) refl

    -- The response to the request has come.
    pub round_response :
        (req : PtpMsgPdelayReq) (r : PtpMsgPdelayResp)
        → IsEarly
        → is_response_to sm req r ≡ true
        → round random ts (
            at waiting_for_pdelay_resp waiting_for_pdelay_resp (record sm {
              tx_pdelay_req_ptr = some req;
              rcvd_pdelay_resp = true;
              rcvd_pdelay_resp_ptr = some r;
            }))
          ≡ done
              (at waiting_for_pdelay_resp_follow_up waiting_for_pdelay_resp (record sm {
                tx_pdelay_req_ptr = some req;
                rcvd_pdelay_resp = true;
                rcvd_pdelay_resp_ptr = some r;
              }))
              []
    unfolding round run_state waiting_for_pdelay_resp_state_transition is_due is_response_to
    round_response req r e m = rw (round, run_state, e, m) refl

    pub round_wait_follow_up :
        IsEarly
        → round random ts (
            at waiting_for_pdelay_resp_follow_up waiting_for_pdelay_resp
              (record sm { rcvd_pdelay_resp = true; rcvd_pdelay_resp_follow_up = false }))
          ≡ done
              (at waiting_for_pdelay_resp_follow_up waiting_for_pdelay_resp_follow_up
                (record sm { rcvd_pdelay_resp = false; rcvd_pdelay_resp_follow_up = false }))
              []
    unfolding round run_state waiting_for_pdelay_resp_follow_up_state_transition is_due is_repeated
        is_followed_up
    round_wait_follow_up e = rw (round, run_state, e) refl

    -- The follow-up to the response has come.
    pub round_followed :
        (req : PtpMsgPdelayReq) (r : PtpMsgPdelayResp) (f : PtpMsgPdelayRespFollowUp)
        → IsEarly
        → (f.head.sequence_id == req.head.sequence_id) ≡ true
        → is_follow_up_to sm r f ≡ true
        → round random ts (
            at waiting_for_pdelay_resp_follow_up waiting_for_pdelay_resp_follow_up (record sm {
              tx_pdelay_req_ptr = some req;
              rcvd_pdelay_resp = false;
              rcvd_pdelay_resp_ptr = some r;
              rcvd_pdelay_resp_follow_up = true;
              rcvd_pdelay_resp_follow_up_ptr = some f;
            }))
          ≡ done
              (at waiting_for_pdelay_interval_timer waiting_for_pdelay_resp_follow_up (record sm {
                tx_pdelay_req_ptr = some req;
                rcvd_pdelay_resp = false;
                rcvd_pdelay_resp_ptr = some r;
                rcvd_pdelay_resp_follow_up = true;
                rcvd_pdelay_resp_follow_up_ptr = some f;
              }))
              []
    unfolding round run_state waiting_for_pdelay_resp_follow_up_state_transition is_due is_repeated
        is_followed_up answered is_follow_up_to
    round_followed req r f e q m = rw (round, run_state, e, q, m) refl
