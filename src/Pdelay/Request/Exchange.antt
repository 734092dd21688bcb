-- ===== src/Pdelay/Request/Exchange.antt =====
-- The first exchange of the MDPdelayReq machine: request, response and follow-up, in this order
-- (time_sync/md_pdelay_req_sm.c).
use ziggo_caa_s_switch.Prelude.{
  ℕ, ◌≡◌, ◌∙◌, refl, ap, ◌⊎◌, inl, inr, true, false, ◌==◌, [], some, arith, Option-cases, subst,
}
use ziggo_caa_s_switch.Ptp.ScaledNs.{UScaledNs, uscaledns_ptpmsgtimestamp}
use ziggo_caa_s_switch.Ptp.ScaledNs.Value.{value}
use ziggo_caa_s_switch.Ptp.Globals.{PerPortGlobal}
use ziggo_caa_s_switch.Pdelay.Messages.{
  PtpMsgPdelayReq, PtpMsgPdelayResp, PtpMsgPdelayRespFollowUp, TsuTimestamp,
}
use ziggo_caa_s_switch.Pdelay.Request.{
  State, initial_send_pdelay_req, waiting_for_pdelay_interval_timer, send_pdelay_req, MdPdelayReqSm,
  Outcome, done, is_response_to, is_follow_up_to, compute_prop_time,
  md_pdelay_add_resp_and_resp_follow_up_timestamp,
}
use ziggo_caa_s_switch.Pdelay.Request.Actions.{is_due}
use ziggo_caa_s_switch.Pdelay.Request.Machine.{
  md_pdelay_req_sm_txts, md_pdelay_req_sm_recv_resp, md_pdelay_req_sm_recv_resp_follow_up,
}
use ziggo_caa_s_switch.Pdelay.Request.PropTime.{mean_delay, Stamped, compute_prop_time-mean_delay}
use ziggo_caa_s_switch.Pdelay.Request.Measured.{judge_response-Kept, added, entered}
use ziggo_caa_s_switch.Pdelay.Request.Calls.{
  ◌then◌, Asked, asked, followed, txts-waiting, recv_resp-answered, recv_follow_up-measured,
  then_done,
}

-- A whole exchange: the time stamp of the sent request, the response and the follow-up.
abbrev pub exchange :
    ℕ
    → UScaledNs
    → TsuTimestamp
    → UScaledNs
    → TsuTimestamp
    → PtpMsgPdelayResp
    → UScaledNs
    → PtpMsgPdelayRespFollowUp
    → MdPdelayReqSm
    → Outcome
exchange random ts1 stamp1 ts2 stamp4 r ts3 f sm =
    md_pdelay_req_sm_txts random ts1 stamp1 sm
    then md_pdelay_req_sm_recv_resp random ts2 stamp4 r
    then md_pdelay_req_sm_recv_resp_follow_up random ts3 f

-- The machine has measured `n`, and waits for the end of the interval.
abbrev pub Measures : ℕ → Outcome → Type 0
Measures n o =
    (s : MdPdelayReqSm) × (o ≡ done s [])
    × (value s.port.mean_link_delay ≡ n)
    × (s.state ≡ waiting_for_pdelay_interval_timer)
    × (s.last_state ≡ waiting_for_pdelay_interval_timer)

module _ (n : ℕ) (stamp1 stamp4 : TsuTimestamp) (req : PtpMsgPdelayReq) (r : PtpMsgPdelayResp)
    (f : PtpMsgPdelayRespFollowUp) where
  -- The four time stamps have a mean delay, and it is `n`.
  pub record Timed : Type 0 where
    pub stamped :
        Stamped stamp1.ts
          (uscaledns_ptpmsgtimestamp r.request_receipt_timestamp)
          (uscaledns_ptpmsgtimestamp f.response_origin_timestamp)
          stamp4.ts
    pub delay :
        mean_delay
          (value stamp1.ts)
          (value (uscaledns_ptpmsgtimestamp r.request_receipt_timestamp))
          (value (uscaledns_ptpmsgtimestamp f.response_origin_timestamp))
          (value stamp4.ts)
        ≡ some n

  -- The two messages answer the request of the machine.
  pub record Answers (sm : MdPdelayReqSm) : Type 0 where
    pub stamp_sequence : (stamp1.sequence_id == sm.pdelay_req_sequence_id) ≡ true
    pub response : is_response_to sm req r ≡ true
    pub follow_sequence : (f.head.sequence_id == req.head.sequence_id) ≡ true
    pub follow_up : is_follow_up_to sm r f ≡ true

  -- The machine is the literal one.
  sending :
      (sm : MdPdelayReqSm)
      → Asked sm req
      → (s : State) × ((s ≡ send_pdelay_req) ⊎ (s ≡ initial_send_pdelay_req))
        × (asked s req sm ≡ sm)
  sending sm k = elim k.sending [
    | inl (e, e') ↦ (send_pdelay_req, inl refl, ground arith)
    | inr (e, e') ↦ (initial_send_pdelay_req, inr refl, ground arith)
  ]

  computed :
      (sm : MdPdelayReqSm)
      → Timed
      → (d : UScaledNs) × (compute_prop_time
            (added (entered (followed req r f stamp1.ts stamp4.ts sm)))
          ≡ some d)
        × (value d ≡ n)
  unfolding md_pdelay_add_resp_and_resp_follow_up_timestamp
  computed sm v =
      let x = added (entered (followed req r f stamp1.ts stamp4.ts sm)) in
      let p = compute_prop_time-mean_delay x v.stamped refl ∙ v.delay in
      elim (Option-cases (compute_prop_time x)) [
        | inl none_eq ↦ absurd (ground (arith, p))
        | inr (d, some_eq) ↦ (d, some_eq, ground (arith, p))
      ]

  module _ (random : ℕ) (ts1 ts2 ts3 : UScaledNs) where
    exchange-asked :
        (s : State) (sm : MdPdelayReqSm)
        → (s ≡ send_pdelay_req) ⊎ (s ≡ initial_send_pdelay_req)
        → Answers sm
        → Timed
        → is_due ts1 sm ≡ false
        → is_due ts2 sm ≡ false
        → is_due ts3 sm ≡ false
        → Measures n (exchange random ts1 stamp1 ts2 stamp4 r ts3 f (asked s req sm))
    unfolding is_due is_response_to is_follow_up_to md_pdelay_add_resp_and_resp_follow_up_timestamp
    exchange-asked s sm h a v e1 e2 e3 =
        let (d, c, vd) = computed sm v in
        let k =
          judge_response-Kept r
            (record (added (entered (followed req r f stamp1.ts stamp4.ts sm))) {
              port = record (added (entered (followed req r f stamp1.ts stamp4.ts sm))).port {
                mean_link_delay = d;
              };
              md_entity =
                  record (added (entered (followed req r f stamp1.ts stamp4.ts sm))).md_entity {
                    is_measuring_delay = true;
                  };
            }) in
        (
          _,
          then_done _ _ _ _
              (then_done _ _ _ _ (txts-waiting random ts1 s req stamp1 sm h a.stamp_sequence e1)
                (recv_resp-answered random ts2 stamp1.ts req stamp4 r sm a.response e2))
              (recv_follow_up-measured random ts3 stamp1.ts stamp4.ts d req r f sm a.follow_sequence
                a.follow_up e3 c),
          ap (λ (p : PerPortGlobal). value p.mean_link_delay) k.port_eq ∙ vd,
          refl,
          k.last_eq,
        )

    -- From the first request that is sent, the three calls in order measure the delay of the four time
    -- stamps: while the interval lasts, the time stamp and the messages belong to the request, the delay
    -- is computed and no asymmetry is measured.
    pub exchange-Measures :
        (sm : MdPdelayReqSm)
        → Asked sm req
        → Answers sm
        → Timed
        → is_due ts1 sm ≡ false
        → is_due ts2 sm ≡ false
        → is_due ts3 sm ≡ false
        → Measures n (exchange random ts1 stamp1 ts2 stamp4 r ts3 f sm)
    exchange-Measures sm k a v e1 e2 e3 =
        let (s, h, l) = sending sm k in
        subst (λ x. Measures n (exchange random ts1 stamp1 ts2 stamp4 r ts3 f x)) l
          (exchange-asked s sm h a v e1 e2 e3)
