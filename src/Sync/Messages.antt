-- ===== src/Sync/Messages.antt =====
-- The sync message and its follow-up: the messages (tsn_drivers/ptp_types.h), their frames
-- (time_sync/msg_frame.h), what `txFollowUp` writes and what `recv_ptp_frame` reads
-- (time_sync/eth_frame.c). The numbers of signed fields are their bit patterns.
use ziggo_caa_s_switch.Prelude.{ℕ, ◌^◌, ◌<◌, ◌≡◌, refl, List, length, take}
use ziggo_caa_s_switch.Ptp.ScaledNs.{UScaledNs, PtpMsgTimestamp}
use ziggo_caa_s_switch.Ptp.ScaledNs.Value.{InWidth}
use ziggo_caa_s_switch.Frame.{
  PtpMsgHeader, PtpFrameHeader, htons, ntohs, htonl, ntohl, htonll, ntohll, set_ptp_frame_header,
  get_ptp_msg_header,
}
use ziggo_caa_s_switch.Frame.RoundTrip.{
  header-roundtrip, htons-roundtrip, htonl-roundtrip, htonll-roundtrip, take-all,
}
use ziggo_caa_s_switch.Frame.RoundTrip as RoundTrip
use ziggo_caa_s_switch.Pdelay.Frames.{frame_timestamp, msg_timestamp}

pub record PtpMsgSync : Type 0 where
  pub head : PtpMsgHeader

pub record PtpMsgFollowUpTlv : Type 0 where
  pub tlv_type : ℕ
  pub length_field : ℕ
  pub organization_id : List ℕ
  pub organization_sub_type : List ℕ
  pub cumulative_scaled_rate_offset : ℕ
  pub gm_time_base_indicator : ℕ
  pub last_gm_phase_change : UScaledNs
  pub scaled_last_gm_freq_change : ℕ

pub record PtpMsgFollowUp : Type 0 where
  pub head : PtpMsgHeader
  pub precise_origin_timestamp : PtpMsgTimestamp
  pub follow_up_information_tlv : PtpMsgFollowUpTlv

-- The frame has the fields of the message in network order.
pub record PtpFrameFollowUp : Type 0 where
  pub head : PtpFrameHeader
  pub precise_origin_timestamp : PtpMsgTimestamp
  pub follow_up_information_tlv : PtpMsgFollowUpTlv

-- `sizeof` of the packed frames.
abbrev pub size_of_sync : ℕ
size_of_sync = 44

abbrev pub size_of_follow_up : ℕ
size_of_follow_up = 76

abbrev pub frame_scaled_ns : UScaledNs → UScaledNs
frame_scaled_ns t = record {
  subns = htons t.subns;
  nsec = htonll t.nsec;
  nsec_msb = htons t.nsec_msb;
}

abbrev pub msg_scaled_ns : UScaledNs → UScaledNs
msg_scaled_ns t = record {
  subns = ntohs t.subns;
  nsec = ntohll t.nsec;
  nsec_msb = ntohs t.nsec_msb;
}

abbrev pub frame_tlv : PtpMsgFollowUpTlv → PtpMsgFollowUpTlv
frame_tlv v = record {
  tlv_type = htons v.tlv_type;
  length_field = htons v.length_field;
  organization_id = take 3 v.organization_id;
  organization_sub_type = take 3 v.organization_sub_type;
  cumulative_scaled_rate_offset = htonl v.cumulative_scaled_rate_offset;
  gm_time_base_indicator = htons v.gm_time_base_indicator;
  last_gm_phase_change = frame_scaled_ns v.last_gm_phase_change;
  scaled_last_gm_freq_change = htonl v.scaled_last_gm_freq_change;
}

abbrev pub msg_tlv : PtpMsgFollowUpTlv → PtpMsgFollowUpTlv
msg_tlv v = record {
  tlv_type = ntohs v.tlv_type;
  length_field = ntohs v.length_field;
  organization_id = take 3 v.organization_id;
  organization_sub_type = take 3 v.organization_sub_type;
  cumulative_scaled_rate_offset = ntohl v.cumulative_scaled_rate_offset;
  gm_time_base_indicator = ntohs v.gm_time_base_indicator;
  last_gm_phase_change = msg_scaled_ns v.last_gm_phase_change;
  scaled_last_gm_freq_change = ntohl v.scaled_last_gm_freq_change;
}

-- The frame of `txFollowUp`.
unfoldable pub frame_follow_up : PtpMsgFollowUp → PtpFrameFollowUp
frame_follow_up m = record {
  head = set_ptp_frame_header m.head;
  precise_origin_timestamp = frame_timestamp m.precise_origin_timestamp;
  follow_up_information_tlv = frame_tlv m.follow_up_information_tlv;
}

-- `recv_ptp_frame`, the cases of the two messages.
unfoldable pub recv_sync : PtpFrameHeader → PtpMsgSync
recv_sync frame = record { head = get_ptp_msg_header frame }

unfoldable pub recv_follow_up : PtpFrameFollowUp → PtpMsgFollowUp
recv_follow_up frame = record {
  head = get_ptp_msg_header frame.head;
  precise_origin_timestamp = msg_timestamp frame.precise_origin_timestamp;
  follow_up_information_tlv = msg_tlv frame.follow_up_information_tlv;
}

-- The fields behind the header fit their types, and the two identifiers have three bytes.
pub record Fits (t : PtpMsgTimestamp) (v : PtpMsgFollowUpTlv) : Type 0 where
  pub seconds_msb_lt : t.seconds_msb < 65536
  pub seconds_lsb_lt : t.seconds_lsb < 2 ^ 32
  pub nanoseconds_lt : t.nanoseconds < 2 ^ 32
  pub tlv_type_lt : v.tlv_type < 65536
  pub length_field_lt : v.length_field < 65536
  pub id_length : length v.organization_id ≡ 3
  pub sub_type_length : length v.organization_sub_type ≡ 3
  pub offset_lt : v.cumulative_scaled_rate_offset < 2 ^ 32
  pub indicator_lt : v.gm_time_base_indicator < 65536
  pub phase_change : InWidth v.last_gm_phase_change
  pub freq_change_lt : v.scaled_last_gm_freq_change < 2 ^ 32

-- A follow-up whose fields fit their types comes back from its frame as it was.
pub follow_up-roundtrip :
    (m : PtpMsgFollowUp)
    → RoundTrip.InWidth m.head
    → Fits m.precise_origin_timestamp m.follow_up_information_tlv
    → recv_follow_up (frame_follow_up m) ≡ m
unfolding recv_follow_up frame_follow_up
follow_up-roundtrip m h v =
    let t = m.precise_origin_timestamp in
    let w = m.follow_up_information_tlv in
    rw
      (
        header-roundtrip m.head h,
        htons-roundtrip t.seconds_msb v.seconds_msb_lt,
        htonl-roundtrip t.seconds_lsb v.seconds_lsb_lt,
        htonl-roundtrip t.nanoseconds v.nanoseconds_lt,
        htons-roundtrip w.tlv_type v.tlv_type_lt,
        htons-roundtrip w.length_field v.length_field_lt,
        take-all 3 w.organization_id v.id_length,
        take-all 3 w.organization_sub_type v.sub_type_length,
        htonl-roundtrip w.cumulative_scaled_rate_offset v.offset_lt,
        htons-roundtrip w.gm_time_base_indicator v.indicator_lt,
        htons-roundtrip w.last_gm_phase_change.subns v.phase_change.subns_lt,
        htonll-roundtrip w.last_gm_phase_change.nsec v.phase_change.nsec_lt,
        htons-roundtrip w.last_gm_phase_change.nsec_msb v.phase_change.msb_lt,
        htonl-roundtrip w.scaled_last_gm_freq_change v.freq_change_lt,
      )
      refl
