-- ===== src/Pdelay/Request/Calls.antt =====
-- The calls of one exchange of the MDPdelayReq machine, each on the machine that the last one leaves
-- (time_sync/md_pdelay_req_sm.c).
use ziggo_caa_s_switch.Prelude.{ℕ, ◌≡◌, ◌∙◌, refl, ◌⊎◌, inl, inr, true, false, ◌==◌, [], ◌++◌, some}
use ziggo_caa_s_switch.Ptp.ScaledNs.{UScaledNs, uscaledns_ptpmsgtimestamp}
use ziggo_caa_s_switch.Ptp.Doubles.{one}
use ziggo_caa_s_switch.Pdelay.Messages.{
  PtpMsgPdelayReq, PtpMsgPdelayResp, PtpMsgPdelayRespFollowUp, TsuTimestamp,
}
use ziggo_caa_s_switch.Pdelay.Request.{
  State, initial_send_pdelay_req, waiting_for_pdelay_resp, waiting_for_pdelay_resp_follow_up,
  waiting_for_pdelay_interval_timer, send_pdelay_req, MdPdelayReqSm, go, Outcome, done,
  exit_failure, stuck, undefined, out_of_fuel, all_state_transition, is_response_to,
  is_follow_up_to, compute_prop_time, md_pdelay_add_resp_and_resp_follow_up_timestamp,
}
use ziggo_caa_s_switch.Pdelay.Request.Machine.{
  run_fuel, run_loop, md_pdelay_req_sm_run, md_pdelay_req_sm_txts, md_pdelay_req_sm_recv_resp,
  md_pdelay_req_sm_recv_resp_follow_up,
}
use ziggo_caa_s_switch.Pdelay.Request.Steps.{
  loop_stop, loop_more, IsEarly, round_sent, round_sent_first, round_wait, round_response,
  round_wait_follow_up, round_followed,
}
use ziggo_caa_s_switch.Pdelay.Request.Measured.{
  judge_response-Kept, added, released, entered, round_measured,
}

-- The next call, on the machine that the last one leaves.
infixl 5 ◌then◌
abbrev pub ◌then◌ : Outcome → (MdPdelayReqSm → Outcome) → Outcome
done sm frames then f = elim (f sm) [
  | done s more ↦ done s (frames ++ more)
  | exit_failure s ↦ exit_failure s
  | stuck s ↦ stuck s
  | undefined ↦ undefined
  | out_of_fuel ↦ out_of_fuel
]
exit_failure s then f = exit_failure s
stuck s then f = stuck s
undefined then f = undefined
out_of_fuel then f = out_of_fuel

pub then_done :
    (o : Outcome) (f : MdPdelayReqSm → Outcome) (s s' : MdPdelayReqSm)
    → o ≡ done s []
    → f s ≡ done s' []
    → (o then f) ≡ done s' []
then_done o f s s' e e' = rw (e, ◌then◌, e') refl

-- The machine behind its request, before the first exchange since its initialisation: its lists are
-- empty, and the ratio of the port is 1.0. The port computes the ratio and the delay.
pub record Asked (sm : MdPdelayReqSm) (req : PtpMsgPdelayReq) : Type 0 where
  pub sending :
      ((sm.state ≡ send_pdelay_req) × (sm.last_state ≡ send_pdelay_req))
      ⊎ ((sm.state ≡ initial_send_pdelay_req) × (sm.last_state ≡ initial_send_pdelay_req))
  pub request : sm.tx_pdelay_req_ptr ≡ some req
  pub no_response : sm.rcvd_pdelay_resp ≡ false
  pub no_follow_up : sm.rcvd_pdelay_resp_follow_up ≡ false
  pub not_begin : sm.instance_global.begin ≡ false
  pub operational : sm.port.port_oper ≡ true
  pub enabled : sm.port_enabled0 ≡ true
  pub no_asymmetry : sm.port.asymmetry_measurement_mode ≡ false
  pub ratio_one : sm.port.neighbor_rate_ratio ≡ one
  pub ratio_computed : sm.port.compute_neighbor_rate_ratio ≡ true
  pub empty : sm.is_empty_prop_time ≡ true
  pub head : sm.list_head_prop_time ≡ 0
  pub tail : sm.list_tail_prop_time ≡ 63
  pub delay_computed : sm.port.compute_mean_link_delay ≡ true

-- The machine with its request out, in literal fields.
abbrev pub asked : State → PtpMsgPdelayReq → MdPdelayReqSm → MdPdelayReqSm
asked s req sm = record sm {
  state = s;
  last_state = s;
  tx_pdelay_req_ptr = some req;
  rcvd_pdelay_resp = false;
  rcvd_pdelay_resp_follow_up = false;
  instance_global = record sm.instance_global { begin = false };
  port = record sm.port {
    port_oper = true;
    asymmetry_measurement_mode = false;
    neighbor_rate_ratio = one;
    compute_neighbor_rate_ratio = true;
    compute_mean_link_delay = true;
  };
  port_enabled0 = true;
  is_empty_prop_time = true;
  list_head_prop_time = 0;
  list_tail_prop_time = 63;
}

abbrev pub waiting : PtpMsgPdelayReq → UScaledNs → MdPdelayReqSm → MdPdelayReqSm
waiting req t1 sm = record (asked waiting_for_pdelay_resp req sm) {
  t1 = t1;
  rcvd_md_timestamp_receive_md_preq = false;
}

-- The response is taken, and its time of arrival written down.
abbrev pub answered :
    PtpMsgPdelayReq → PtpMsgPdelayResp → UScaledNs → UScaledNs → MdPdelayReqSm → MdPdelayReqSm
answered req r t1 t4 sm = record (waiting req t1 sm) {
  state = waiting_for_pdelay_resp_follow_up;
  last_state = waiting_for_pdelay_resp_follow_up;
  rcvd_pdelay_resp_ptr = some r;
  t2 = uscaledns_ptpmsgtimestamp r.request_receipt_timestamp;
  t4 = t4;
}

-- The machine with the follow-up, and its measurement.
abbrev pub followed :
    PtpMsgPdelayReq
    → PtpMsgPdelayResp
    → PtpMsgPdelayRespFollowUp
    → UScaledNs
    → UScaledNs
    → MdPdelayReqSm
    → MdPdelayReqSm
followed req r f t1 t4 sm = record (answered req r t1 t4 sm) {
  rcvd_pdelay_resp_follow_up = true;
  rcvd_pdelay_resp_follow_up_ptr = some f;
  t3 = uscaledns_ptpmsgtimestamp f.response_origin_timestamp;
}

module _ (random : ℕ) where
  pub txts-waiting :
      (ts : UScaledNs) (s : State) (req : PtpMsgPdelayReq) (stamp : TsuTimestamp)
      (sm : MdPdelayReqSm)
      → (s ≡ send_pdelay_req) ⊎ (s ≡ initial_send_pdelay_req)
      → (stamp.sequence_id == sm.pdelay_req_sequence_id) ≡ true
      → IsEarly random ts sm
      → md_pdelay_req_sm_txts random ts stamp (asked s req sm) ≡ done (waiting req stamp.ts sm) []
  unfolding md_pdelay_req_sm_txts md_pdelay_req_sm_run all_state_transition
  txts-waiting ts s req stamp sm (inl e) q early =
      let x = record (asked send_pdelay_req req sm) {
        t1 = stamp.ts;
        rcvd_md_timestamp_receive_md_preq = true;
      } in
      rw e (
        rw (md_pdelay_req_sm_txts, q)
          (loop_more random ts 12 x _ [] [] (round_sent random ts x refl) refl
            ∙ loop_stop random ts 11 _ _ [] [] (round_wait random ts x send_pdelay_req refl early)
                refl))
  txts-waiting ts s req stamp sm (inr e) q early =
      let x = record (asked initial_send_pdelay_req req sm) {
        t1 = stamp.ts;
        rcvd_md_timestamp_receive_md_preq = true;
      } in
      rw e (
        rw (md_pdelay_req_sm_txts, q)
          (loop_more random ts 12 x _ [] [] (round_sent_first random ts x refl) refl
            ∙ loop_stop random ts 11 _ _ [] []
                (round_wait random ts x initial_send_pdelay_req refl early) refl))

  pub recv_resp-answered :
      (ts t1 : UScaledNs) (req : PtpMsgPdelayReq) (stamp : TsuTimestamp) (r : PtpMsgPdelayResp)
      (sm : MdPdelayReqSm)
      → is_response_to (waiting req t1 sm) req r ≡ true
      → IsEarly random ts sm
      → md_pdelay_req_sm_recv_resp random ts stamp r (waiting req t1 sm)
        ≡ done (answered req r t1 stamp.ts sm) []
  unfolding md_pdelay_req_sm_recv_resp md_pdelay_req_sm_run all_state_transition is_response_to
  recv_resp-answered ts t1 req stamp r sm m early =
      let x = record (waiting req t1 sm) {
        rcvd_pdelay_resp = true;
        rcvd_pdelay_resp_ptr = some r;
        t2 = uscaledns_ptpmsgtimestamp r.request_receipt_timestamp;
      } in
      let run : run_loop random ts run_fuel x []
          ≡ done (record (answered req r t1 stamp.ts sm) { t4 = sm.t4 }) [] =
        loop_more random ts 12 x _ [] [] (round_response random ts x req r early m) refl
        ∙ loop_stop random ts 11 _ _ [] [] (round_wait_follow_up random ts x early) refl in
      rw (md_pdelay_req_sm_recv_resp, run) refl

  pub recv_follow_up-measured :
      (ts t1 t4 d : UScaledNs) (req : PtpMsgPdelayReq) (r : PtpMsgPdelayResp)
      (f : PtpMsgPdelayRespFollowUp) (sm : MdPdelayReqSm)
      → (f.head.sequence_id == req.head.sequence_id) ≡ true
      → is_follow_up_to sm r f ≡ true
      → IsEarly random ts sm
      → compute_prop_time (added (entered (followed req r f t1 t4 sm))) ≡ some d
      → md_pdelay_req_sm_recv_resp_follow_up random ts f (answered req r t1 t4 sm)
        ≡ done
            (go waiting_for_pdelay_interval_timer
              (released d r (entered (followed req r f t1 t4 sm))))
            []
  unfolding md_pdelay_req_sm_recv_resp_follow_up md_pdelay_req_sm_run all_state_transition
      is_follow_up_to md_pdelay_add_resp_and_resp_follow_up_timestamp
  recv_follow_up-measured ts t1 t4 d req r f sm q m early e =
      let x = followed req r f t1 t4 sm in
      let k = judge_response-Kept r (record (added (entered x)) {
        port = record (added (entered x)).port { mean_link_delay = d };
        md_entity = record (added (entered x)).md_entity { is_measuring_delay = true };
      }) in
      loop_more random ts 12 x _ [] [] (round_followed random ts x req r f early q m) refl
      ∙ loop_stop random ts 11 _ _ [] [] (round_measured random ts d req r f x early e)
          (rw k.last_eq refl)
