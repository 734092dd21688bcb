-- ===== src/Pdelay/Frames.antt =====
-- The frames of the two responses, as the responder fills them (time_sync/md_pdelay_resp_sm.c) and as a
-- received frame is read (time_sync/eth_frame.c). A frame behind the CPU header is its packed struct.
use ziggo_caa_s_switch.Prelude.{◌^◌, ◌<◌, ◌≡◌, refl, take, length}
use ziggo_caa_s_switch.Ptp.ScaledNs.{PtpMsgTimestamp}
use ziggo_caa_s_switch.Frame.{
  PortIdentity, PtpFrameHeader, htons, ntohs, htonl, ntohl, set_ptp_frame_header,
  get_ptp_msg_header,
}
use ziggo_caa_s_switch.Frame.RoundTrip.{
  htons-roundtrip, htonl-roundtrip, header-roundtrip, InWidth, take-all,
}
use ziggo_caa_s_switch.Pdelay.Messages.{PtpMsgPdelayReq, PtpMsgPdelayResp, PtpMsgPdelayRespFollowUp}

-- `PTPFramePdelayResp` and `PTPFramePdelayRespFollowUp`, whose time stamps are named apart.
pub record PtpFramePdelayResp : Type 0 where
  pub head : PtpFrameHeader
  pub request_receipt_timestamp : PtpMsgTimestamp
  pub requesting_port_identity : PortIdentity

pub record PtpFramePdelayRespFollowUp : Type 0 where
  pub head : PtpFrameHeader
  pub response_origin_timestamp : PtpMsgTimestamp
  pub requesting_port_identity : PortIdentity

abbrev pub frame_timestamp : PtpMsgTimestamp → PtpMsgTimestamp
frame_timestamp t = record {
  seconds_msb = htons t.seconds_msb;
  seconds_lsb = htonl t.seconds_lsb;
  nanoseconds = htonl t.nanoseconds;
}

abbrev pub msg_timestamp : PtpMsgTimestamp → PtpMsgTimestamp
msg_timestamp t = record {
  seconds_msb = ntohs t.seconds_msb;
  seconds_lsb = ntohl t.seconds_lsb;
  nanoseconds = ntohl t.nanoseconds;
}

-- The frame of `txPdelayResp`.
unfoldable pub frame_pdelay_resp : PtpMsgPdelayResp → PtpFramePdelayResp
frame_pdelay_resp m = record {
  head = set_ptp_frame_header m.head;
  request_receipt_timestamp = frame_timestamp m.request_receipt_timestamp;
  requesting_port_identity = record {
    clock_identity = take 8 m.requesting_port_identity.clock_identity;
    port_number = htons m.requesting_port_identity.port_number;
  };
}

-- The frame of `txPdelayRespFollowUp`.
unfoldable pub frame_pdelay_resp_follow_up : PtpMsgPdelayRespFollowUp → PtpFramePdelayRespFollowUp
frame_pdelay_resp_follow_up m = record {
  head = set_ptp_frame_header m.head;
  response_origin_timestamp = frame_timestamp m.response_origin_timestamp;
  requesting_port_identity = record {
    clock_identity = take 8 m.requesting_port_identity.clock_identity;
    port_number = htons m.requesting_port_identity.port_number;
  };
}

-- `recv_ptp_frame`, the cases of the three messages.
unfoldable pub recv_pdelay_req : PtpFrameHeader → PtpMsgPdelayReq
recv_pdelay_req frame = record { head = get_ptp_msg_header frame }

unfoldable pub recv_pdelay_resp : PtpFramePdelayResp → PtpMsgPdelayResp
recv_pdelay_resp frame = record {
  head = get_ptp_msg_header frame.head;
  request_receipt_timestamp = msg_timestamp frame.request_receipt_timestamp;
  requesting_port_identity = record {
    clock_identity = take 8 frame.requesting_port_identity.clock_identity;
    port_number = ntohs frame.requesting_port_identity.port_number;
  };
}

-- The port number stays in network order.
unfoldable pub recv_pdelay_resp_follow_up : PtpFramePdelayRespFollowUp → PtpMsgPdelayRespFollowUp
recv_pdelay_resp_follow_up frame = record {
  head = get_ptp_msg_header frame.head;
  response_origin_timestamp = msg_timestamp frame.response_origin_timestamp;
  requesting_port_identity = record {
    clock_identity = take 8 frame.requesting_port_identity.clock_identity;
    port_number = frame.requesting_port_identity.port_number;
  };
}

pub record Fits (t : PtpMsgTimestamp) (p : PortIdentity) : Type 0 where
  pub seconds_msb_lt : t.seconds_msb < 65536
  pub seconds_lsb_lt : t.seconds_lsb < 2 ^ 32
  pub nanoseconds_lt : t.nanoseconds < 2 ^ 32
  pub clock_length : length p.clock_identity ≡ 8
  pub port_number_lt : p.port_number < 65536

timestamp-roundtrip :
    (t : PtpMsgTimestamp) (p : PortIdentity) → Fits t p → msg_timestamp (frame_timestamp t) ≡ t
timestamp-roundtrip t p v =
    rw
      (
        htons-roundtrip t.seconds_msb v.seconds_msb_lt,
        htonl-roundtrip t.seconds_lsb v.seconds_lsb_lt,
        htonl-roundtrip t.nanoseconds v.nanoseconds_lt,
      )
      refl

pub pdelay_resp-roundtrip :
    (m : PtpMsgPdelayResp)
    → InWidth m.head
    → Fits m.request_receipt_timestamp m.requesting_port_identity
    → recv_pdelay_resp (frame_pdelay_resp m) ≡ m
unfolding recv_pdelay_resp frame_pdelay_resp
pdelay_resp-roundtrip m h v =
    rw
      (
        header-roundtrip m.head h,
        timestamp-roundtrip m.request_receipt_timestamp m.requesting_port_identity v,
        take-all 8 m.requesting_port_identity.clock_identity v.clock_length,
        htons-roundtrip m.requesting_port_identity.port_number v.port_number_lt,
      )
      refl

-- The follow-up comes back with the bytes of its port number the other way round.
pub pdelay_resp_follow_up-swapped :
    (m : PtpMsgPdelayRespFollowUp)
    → InWidth m.head
    → Fits m.response_origin_timestamp m.requesting_port_identity
    → recv_pdelay_resp_follow_up (frame_pdelay_resp_follow_up m) ≡ record m {
      requesting_port_identity = record m.requesting_port_identity {
        port_number = htons m.requesting_port_identity.port_number;
      };
    }
unfolding recv_pdelay_resp_follow_up frame_pdelay_resp_follow_up
pdelay_resp_follow_up-swapped m h v =
    rw
      (
        header-roundtrip m.head h,
        timestamp-roundtrip m.response_origin_timestamp m.requesting_port_identity v,
        take-all 8 m.requesting_port_identity.clock_identity v.clock_length,
      )
      refl
