-- ===== src/Pdelay/Link.antt =====
-- A request of one machine and the answers of the other, over the frames between them, end to end
-- (time_sync/md_pdelay_req_sm.c, md_pdelay_resp_sm.c, eth_frame.c).
use ziggo_caa_s_switch.Prelude.{
  ℕ, ◌*◌, ◌-◌, ◌<◌, ◌^◌, ◌≡◌, ◌∙◌, refl, ap, true, false, [], ◌∷◌, some, ◌==◌, arith,
}
use ziggo_caa_s_switch.Ptp.ScaledNs.{
  UScaledNs, ptpmsgtimestamp_uscaledns, uscaledns_ptpmsgtimestamp,
}
use ziggo_caa_s_switch.Ptp.ScaledNs.Value.{value, InWidth}
use ziggo_caa_s_switch.Pdelay.Messages.{
  PtpMsgPdelayReq, PtpMsgPdelayResp, PtpMsgPdelayRespFollowUp, TsuTimestamp,
}
use ziggo_caa_s_switch.Pdelay.Frames.{
  PtpFramePdelayResp, PtpFramePdelayRespFollowUp, recv_pdelay_resp, recv_pdelay_resp_follow_up,
}
use ziggo_caa_s_switch.Pdelay.Request.{MdPdelayReqSm, set_pdelay_req}
use ziggo_caa_s_switch.Pdelay.Request.Actions.{is_due}
use ziggo_caa_s_switch.Pdelay.Request.PropTime.{mean_delay}
use ziggo_caa_s_switch.Pdelay.Request.Calls.{Asked}
use ziggo_caa_s_switch.Pdelay.Request.Exchange.{Timed, Measures, exchange, exchange-Measures}
use ziggo_caa_s_switch.Pdelay.Response.{
  MdPdelayRespSm, resp, follow_up, done, set_pdelay_resp, set_pdelay_resp_follow_up,
  md_pdelay_resp_sm_recv_req, md_pdelay_resp_sm_txts,
}
use ziggo_caa_s_switch.Pdelay.Response.Serving.{IsIdle, ◌then◌, recv_req-Serves}
use ziggo_caa_s_switch.Pdelay.Agreement.{
  Named, received_request, received_response, received_follow_up, request-sequence, response_eq,
  follow_up_eq, is_response_to-received, follow_up-sequence, is_follow_up_to-received,
}

abbrev whole_ns : ℕ → UScaledNs
whole_ns n = record { subns = 0; nsec = n; nsec_msb = 0 }

-- The time stamp on its way keeps the whole nanoseconds.
timestamp_back :
    (t : UScaledNs)
    → t.nsec < 2 ^ 32 * 1000000000
    → uscaledns_ptpmsgtimestamp (ptpmsgtimestamp_uscaledns t) ≡ whole_ns t.nsec
unfolding uscaledns_ptpmsgtimestamp ptpmsgtimestamp_uscaledns
timestamp_back t h = ap whole_ns (omega arith)

-- The four time stamps of an exchange, those of the responder below 2 ^ 32 seconds, have the mean
-- delay `n`; the responder's count in whole nanoseconds.
pub record LinkTimes (n : ℕ) (t1 t2 t3 t4 : UScaledNs) : Type 0 where
  pub fits1 : InWidth t1
  pub fits4 : InWidth t4
  pub seconds2 : t2.nsec < 2 ^ 32 * 1000000000
  pub seconds3 : t3.nsec < 2 ^ 32 * 1000000000
  pub within : value t4 - value t1 < 2 ^ 48
  pub delay : mean_delay (value t1) (65536 * t2.nsec) (65536 * t3.nsec) (value t4) ≡ some n

fits : (t : UScaledNs) → t.nsec < 2 ^ 32 * 1000000000 → InWidth (whole_ns t.nsec)
fits t h = record { subns_lt = omega arith; nsec_lt = omega arith; msb_lt = omega arith }

numbers : (x : ℕ) → value (whole_ns x) ≡ 65536 * x
numbers x = omega arith

timed_of :
    (n : ℕ) (stamp1 stamp4 : TsuTimestamp) (t2 t3 : UScaledNs) (req : PtpMsgPdelayReq)
    (r : PtpMsgPdelayResp) (f : PtpMsgPdelayRespFollowUp)
    → uscaledns_ptpmsgtimestamp r.request_receipt_timestamp ≡ whole_ns t2.nsec
    → uscaledns_ptpmsgtimestamp f.response_origin_timestamp ≡ whole_ns t3.nsec
    → LinkTimes n stamp1.ts t2 t3 stamp4.ts
    → Timed n stamp1 stamp4 req r f
timed_of n stamp1 stamp4 t2 t3 req r f e2 e3 t = record {
  stamped =
      rw (e2, e3)
        (record {
          fits1 = t.fits1;
          fits2 = fits t2 t.seconds2;
          fits3 = fits t3 t.seconds3;
          fits4 = t.fits4;
          no_msb2 = refl;
          no_msb3 = refl;
          within = t.within;
        });
  delay = rw (e2, e3, numbers t2.nsec, numbers t3.nsec) t.delay;
}

module _ (sm : MdPdelayReqSm) (rs : MdPdelayRespSm) (n : ℕ)
    (stamp1 stamp2 stamp3 stamp4 : TsuTimestamp)
    (named : Named sm.instance_global.this_clock sm.port.this_port sm.pdelay_req_sequence_id)
    (p : rs.port.this_port < 65536) where
  timed :
      LinkTimes n stamp1.ts stamp2.ts stamp3.ts stamp4.ts
      → Timed n stamp1 stamp4
          (set_pdelay_req sm)
          (received_response sm rs stamp2.ts stamp3.ts)
          (received_follow_up sm rs stamp2.ts stamp3.ts)
  unfolding set_pdelay_resp set_pdelay_resp_follow_up
  timed t =
      let e2 : uscaledns_ptpmsgtimestamp
            (received_response sm rs stamp2.ts stamp3.ts).request_receipt_timestamp
          ≡ whole_ns stamp2.ts.nsec =
        ap (λ (m : PtpMsgPdelayResp). uscaledns_ptpmsgtimestamp m.request_receipt_timestamp)
          (response_eq sm rs stamp2.ts stamp3.ts named p)
        ∙ timestamp_back stamp2.ts t.seconds2 in
      let e3 : uscaledns_ptpmsgtimestamp
            (received_follow_up sm rs stamp2.ts stamp3.ts).response_origin_timestamp
          ≡ whole_ns stamp3.ts.nsec =
        ap (λ (m : PtpMsgPdelayRespFollowUp). uscaledns_ptpmsgtimestamp m.response_origin_timestamp)
          (follow_up_eq sm rs stamp2.ts stamp3.ts named p)
        ∙ timestamp_back stamp3.ts t.seconds3 in
      timed_of n stamp1 stamp4 stamp2.ts stamp3.ts (set_pdelay_req sm) _ _ e2 e3 t

  -- In the first exchange since the requester's initialisation, with whole clock identities, 16-bit
  -- numbers, an idle responder and time stamps that belong to the request: the responder's two frames,
  -- read by the requester while the interval lasts, make it measure the mean delay of the four time
  -- stamps. The requester's port is enabled and operational, it computes the ratio, which the first
  -- entry of the lists leaves at 1.0, and the delay, and no asymmetry is measured.
  pub link-Measures :
      (random : ℕ) (ts1 ts2 ts3 : UScaledNs)
      → Asked sm (set_pdelay_req sm)
      → IsIdle rs
      → (stamp1.sequence_id == sm.pdelay_req_sequence_id) ≡ true
      → (stamp3.sequence_id == sm.pdelay_req_sequence_id) ≡ true
      → LinkTimes n stamp1.ts stamp2.ts stamp3.ts stamp4.ts
      → is_due ts1 sm ≡ false
      → is_due ts2 sm ≡ false
      → is_due ts3 sm ≡ false
      → (s : MdPdelayRespSm) × (fr : PtpFramePdelayResp) × (fu : PtpFramePdelayRespFollowUp)
        × ((md_pdelay_resp_sm_recv_req stamp2 (received_request sm) rs
              then md_pdelay_resp_sm_txts stamp3)
            ≡ done s (resp rs.port.this_port fr ∷ follow_up rs.port.this_port fu ∷ []))
        × Measures n (
            exchange random ts1 stamp1 ts2 stamp4
              (recv_pdelay_resp fr)
              ts3
              (recv_pdelay_resp_follow_up fu)
              sm)
  link-Measures random ts1 ts2 ts3 asked idle seq1 seq3 t d1 d2 d3 = (
    _,
    _,
    _,
    recv_req-Serves (received_request sm) stamp2 stamp3 rs idle
        (request-sequence sm rs stamp2.ts stamp3.ts named p stamp3.sequence_id seq3),
    exchange-Measures n stamp1 stamp4 (set_pdelay_req sm)
        (received_response sm rs stamp2.ts stamp3.ts) (received_follow_up sm rs stamp2.ts stamp3.ts)
        random ts1 ts2 ts3 sm asked
        (record {
          stamp_sequence = seq1;
          response = is_response_to-received sm rs stamp2.ts stamp3.ts named p;
          follow_sequence = follow_up-sequence sm rs stamp2.ts stamp3.ts named p;
          follow_up = is_follow_up_to-received sm rs stamp2.ts stamp3.ts named p;
        })
        (timed t) d1 d2 d3,
  )
