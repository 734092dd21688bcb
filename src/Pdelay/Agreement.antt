-- ===== src/Pdelay/Agreement.antt =====
-- The two machines of a link together, with the frames between them: what the responder sends answers
-- the request, and the exchange measures the delay (time_sync/md_pdelay_req_sm.c, md_pdelay_resp_sm.c,
-- eth_frame.c).
use ziggo_caa_s_switch.Prelude.{
  ℕ, ◌<◌, ◌≡◌, ◌∙◌, refl, ap, Bool, true, ◌&&◌, ◌||◌, List, ◌==◌, arith, length, replicate,
}
use ziggo_caa_s_switch.Ptp.ScaledNs.{UScaledNs, ptpmsgtimestamp_uscaledns}
use ziggo_caa_s_switch.Ptp.Priority.Memcmp.{memcmp_refl}
use ziggo_caa_s_switch.Frame.{
  htons, PortIdentity, PtpMsgHeader, ptp_msg_header_template, set_ptp_frame_header,
}
use ziggo_caa_s_switch.Frame.RoundTrip.{InWidth, header-roundtrip}
use ziggo_caa_s_switch.Pdelay.Messages.{
  PtpMsgPdelayReq, PtpMsgPdelayResp, PtpMsgPdelayRespFollowUp, same_clock, port_identity_equal,
}
use ziggo_caa_s_switch.Pdelay.Frames.{
  Fits, recv_pdelay_req, recv_pdelay_resp, recv_pdelay_resp_follow_up, frame_pdelay_resp,
  frame_pdelay_resp_follow_up, pdelay_resp-roundtrip, pdelay_resp_follow_up-swapped,
}
use ziggo_caa_s_switch.Pdelay.Request.{
  MdPdelayReqSm, set_pdelay_req, is_response_to, is_follow_up_to,
}
use ziggo_caa_s_switch.Pdelay.Response.{
  MdPdelayRespSm, source, set_pdelay_resp, set_pdelay_resp_follow_up,
}

-- The port of a machine has a whole clock identity and a 16-bit number, and so has its request.
pub record Named (clock : List ℕ) (port sequence : ℕ) : Type 0 where
  pub clock_length : length clock ≡ 8
  pub port_lt : port < 65536
  pub sequence_lt : sequence < 65536

template-InWidth :
    (msgtype len seqid : ℕ) (p : PortIdentity)
    → msgtype < 16
    → len < 65536
    → Named p.clock_identity p.port_number seqid
    → InWidth (ptp_msg_header_template msgtype len p seqid 0 0)
unfolding ptp_msg_header_template
template-InWidth msgtype len seqid p m l n = record {
  major_sdo_id_lt = omega arith;
  message_type_lt = m;
  minor_version_ptp_lt = omega arith;
  version_ptp_lt = omega arith;
  message_length_lt = l;
  flags_length = refl;
  correction_field_lt = omega arith;
  specific_length = refl;
  clock_length = n.clock_length;
  port_number_lt = n.port_lt;
  sequence_id_lt = n.sequence_lt;
}

same_clock_refl : (xs : List ℕ) → same_clock xs xs ≡ true
unfolding same_clock
same_clock_refl xs = rw (memcmp_refl xs) refl

eq_self : (x : ℕ) → (x == x) ≡ true
eq_self x = ground arith

and_true : {a b : Bool} → a ≡ true → b ≡ true → (a && b) ≡ true
and_true e f = rw (e, f) refl

or_true : {a : Bool} (b : Bool) → a ≡ true → (a || b) ≡ true
or_true b e = rw e refl

-- The request as the responder reads it.
abbrev pub received_request : MdPdelayReqSm → PtpMsgPdelayReq
received_request sm = recv_pdelay_req (set_ptp_frame_header (set_pdelay_req sm).head)

module _ (sm : MdPdelayReqSm) (rs : MdPdelayRespSm) (t2 t3 : UScaledNs) where
  -- Its two answers as the requester reads them.
  abbrev pub received_response : PtpMsgPdelayResp
  received_response =
      recv_pdelay_resp
        (frame_pdelay_resp (set_pdelay_resp (record rs { t2 = t2 }) (received_request sm)))

  abbrev pub received_follow_up : PtpMsgPdelayRespFollowUp
  received_follow_up = recv_pdelay_resp_follow_up (
      frame_pdelay_resp_follow_up
        (set_pdelay_resp_follow_up (record rs { t3 = t3 }) (received_request sm)))

  module _ (n : Named sm.instance_global.this_clock sm.port.this_port sm.pdelay_req_sequence_id)
      (p : rs.port.this_port < 65536) where
    source-Named : Named (replicate 8 0) rs.port.this_port sm.pdelay_req_sequence_id
    source-Named = record { clock_length = refl; port_lt = p; sequence_lt = n.sequence_lt }

    request_eq : received_request sm ≡ set_pdelay_req sm
    unfolding recv_pdelay_req set_pdelay_req
    request_eq =
        ap (λ (h : PtpMsgHeader). record { head = h })
          (header-roundtrip _ (
            template-InWidth 2 54 sm.pdelay_req_sequence_id _ (omega arith) (omega arith) (record {
              clock_length = n.clock_length;
              port_lt = n.port_lt;
              sequence_lt = n.sequence_lt;
            })))

    -- The request keeps its sequence id on the way.
    pub request-sequence :
        (i : ℕ)
        → (i == sm.pdelay_req_sequence_id) ≡ true
        → (i == (received_request sm).head.sequence_id) ≡ true
    unfolding set_pdelay_req ptp_msg_header_template
    request-sequence i e = rw request_eq e

    timestamp-Fits :
        (t : UScaledNs)
        → Fits (ptpmsgtimestamp_uscaledns t) (set_pdelay_req sm).head.source_port_identity
    unfolding ptpmsgtimestamp_uscaledns set_pdelay_req ptp_msg_header_template
    timestamp-Fits t = record {
      seconds_msb_lt = omega arith;
      seconds_lsb_lt = omega arith;
      nanoseconds_lt = omega arith;
      clock_length = n.clock_length;
      port_number_lt = n.port_lt;
    }

    pub response_eq :
        received_response ≡ set_pdelay_resp (record rs { t2 = t2 }) (set_pdelay_req sm)
    unfolding set_pdelay_resp set_pdelay_req ptp_msg_header_template
    response_eq =
        ap (λ q. recv_pdelay_resp (frame_pdelay_resp (set_pdelay_resp (record rs { t2 = t2 }) q)))
          request_eq
        ∙ pdelay_resp-roundtrip _
            (template-InWidth 3 54 sm.pdelay_req_sequence_id (source rs) (omega arith) (omega arith)
              source-Named)
            (timestamp-Fits t2)

    -- The follow-up, as it was sent but for the bytes of the requesting port's number.
    abbrev pub swapped : PtpMsgPdelayRespFollowUp → PtpMsgPdelayRespFollowUp
    swapped m = record m {
      requesting_port_identity = record m.requesting_port_identity {
        port_number = htons m.requesting_port_identity.port_number;
      };
    }

    pub follow_up_eq :
        received_follow_up
        ≡ swapped (set_pdelay_resp_follow_up (record rs { t3 = t3 }) (set_pdelay_req sm))
    unfolding set_pdelay_resp_follow_up set_pdelay_req ptp_msg_header_template
    follow_up_eq =
        ap
          (λ q.
            recv_pdelay_resp_follow_up
              (frame_pdelay_resp_follow_up (set_pdelay_resp_follow_up (record rs { t3 = t3 }) q)))
          request_eq
        ∙ pdelay_resp_follow_up-swapped _
            (template-InWidth 10 54 sm.pdelay_req_sequence_id (source rs) (omega arith)
              (omega arith) source-Named)
            (timestamp-Fits t3)

    -- The responder's answers pass the tests of the requester.
    pub is_response_to-received : is_response_to sm (set_pdelay_req sm) received_response ≡ true
    unfolding is_response_to set_pdelay_resp set_pdelay_req ptp_msg_header_template
    is_response_to-received = rw response_eq (
        and_true
          (and_true (eq_self sm.pdelay_req_sequence_id)
            (same_clock_refl sm.instance_global.this_clock))
          (eq_self sm.port.this_port))

    pub follow_up-sequence :
        (received_follow_up.head.sequence_id == (set_pdelay_req sm).head.sequence_id) ≡ true
    unfolding set_pdelay_resp_follow_up set_pdelay_req ptp_msg_header_template
    follow_up-sequence = rw follow_up_eq (eq_self sm.pdelay_req_sequence_id)

    pub is_follow_up_to-received : is_follow_up_to sm received_response received_follow_up ≡ true
    unfolding is_follow_up_to port_identity_equal set_pdelay_resp set_pdelay_resp_follow_up
        set_pdelay_req ptp_msg_header_template
    is_follow_up_to-received =
        rw (response_eq, follow_up_eq)
          (or_true _ (and_true (same_clock_refl (replicate 8 0)) (eq_self rs.port.this_port)))
