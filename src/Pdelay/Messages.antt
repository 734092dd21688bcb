-- ===== src/Pdelay/Messages.antt =====
-- The messages of the peer delay mechanism, their frames and the time stamps of the hardware
-- (tsn_drivers/ptp_types.h, time_sync/msg_frame.h). A pointer test `!memcmp(a, b, 8)` compares whole
-- identities.
use ziggo_caa_s_switch.Prelude.{ℕ, Bool, true, false, ◌&&◌, List, ◌==◌, ℤ, pos, zero}
use ziggo_caa_s_switch.Ptp.ScaledNs.{UScaledNs, PtpMsgTimestamp}
use ziggo_caa_s_switch.Ptp.Priority.{memcmp}
use ziggo_caa_s_switch.Frame.{PortIdentity, PtpMsgHeader}

pub record PtpMsgPdelayReq : Type 0 where
  pub head : PtpMsgHeader

pub record PtpMsgPdelayResp : Type 0 where
  pub head : PtpMsgHeader
  pub request_receipt_timestamp : PtpMsgTimestamp
  pub requesting_port_identity : PortIdentity

pub record PtpMsgPdelayRespFollowUp : Type 0 where
  pub head : PtpMsgHeader
  pub response_origin_timestamp : PtpMsgTimestamp
  pub requesting_port_identity : PortIdentity

pub record TsuTimestamp : Type 0 where
  pub ts : UScaledNs
  pub sequence_id : ℕ
  pub msg_type : ℕ

abbrev is_zero : ℤ → Bool
is_zero (pos zero) = true
is_zero _ = false

-- `!memcmp(a, b, 8)`.
unfoldable pub same_clock : List ℕ → List ℕ → Bool
same_clock a b = is_zero (memcmp a b)

unfoldable pub port_identity_equal : PortIdentity → PortIdentity → Bool
port_identity_equal pi1 pi2 =
    same_clock pi1.clock_identity pi2.clock_identity && (pi1.port_number == pi2.port_number)

-- `sizeof` of the packed frames.
abbrev pub size_of_pdelay_req : ℕ
size_of_pdelay_req = 54

abbrev pub size_of_pdelay_resp : ℕ
size_of_pdelay_resp = 54
