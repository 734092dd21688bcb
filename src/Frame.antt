-- ===== src/Frame.antt =====
-- The common header of PTP messages and its frame in network order (time_sync/msg_frame.h and
-- msg_frame.c), and the header that a machine starts from (tsn_drivers/ptp_types.c). A field of the
-- packed frame is the number that the little-endian host reads there.
pub mod RoundTrip
mod Examples
use ziggo_caa_s_switch.Prelude.{
  ℕ, ◌+◌, ◌*◌, ◌/◌, ◌%◌, ◌^◌, List, [], ◌∷◌, ◌==◌, if◌then◌else◌, take,
}

pub record PortIdentity : Type 0 where
  pub clock_identity : List ℕ
  pub port_number : ℕ  -- uint16_t

pub record PtpMsgHeader : Type 0 where
  pub major_sdo_id : ℕ  -- Nibble
  pub message_type : ℕ  -- Enumeration4
  pub minor_version_ptp : ℕ  -- UInteger4
  pub version_ptp : ℕ  -- UInteger4
  pub message_length : ℕ  -- uint16_t
  pub domain_number : ℕ
  pub minor_sdo_id : ℕ
  pub flags : List ℕ
  pub correction_field : ℕ  -- the bit pattern of an int64_t
  pub message_type_specific : List ℕ
  pub source_port_identity : PortIdentity
  pub sequence_id : ℕ  -- uint16_t
  pub control_field : ℕ
  pub log_message_interval : ℕ  -- the bit pattern of an int8_t

pub record PtpFrameHeader : Type 0 where
  pub major_sdo_id_message_type : ℕ
  pub minor_version_ptp_version_ptp : ℕ
  pub message_length : ℕ
  pub domain_number : ℕ
  pub minor_sdo_id : ℕ
  pub flags : List ℕ
  pub correction_field : ℕ
  pub message_type_specific : List ℕ
  pub source_port_identity : PortIdentity
  pub sequence_id : ℕ
  pub control_field : ℕ
  pub log_message_interval : ℕ

-- The bytes of a word in memory, the lowest first.
abbrev pub word2 : ℕ → ℕ → ℕ
word2 b0 b1 = b0 + 256 * b1

abbrev pub word4 : ℕ → ℕ → ℕ → ℕ → ℕ
word4 b0 b1 b2 b3 = b0 + 256 * (b1 + 256 * (b2 + 256 * b3))

-- The bytes are copied in the opposite order; `ntohs`, `ntohl` and `ntohll` are the same functions.
unfoldable pub htons : ℕ → ℕ
htons h = word2 (h / 256 % 256) (h % 256)

unfoldable pub ntohs : ℕ → ℕ
ntohs n = word2 (n / 256 % 256) (n % 256)

unfoldable pub htonl : ℕ → ℕ
htonl h = word4 (h / 2 ^ 24 % 256) (h / 2 ^ 16 % 256) (h / 256 % 256) (h % 256)

unfoldable pub ntohl : ℕ → ℕ
ntohl n = word4 (n / 2 ^ 24 % 256) (n / 2 ^ 16 % 256) (n / 256 % 256) (n % 256)

unfoldable pub htonll : ℕ → ℕ
htonll h =
    word4 (h / 2 ^ 56 % 256) (h / 2 ^ 48 % 256) (h / 2 ^ 40 % 256) (h / 2 ^ 32 % 256)
    + 2 ^ 32 * word4 (h / 2 ^ 24 % 256) (h / 2 ^ 16 % 256) (h / 256 % 256) (h % 256)

unfoldable pub ntohll : ℕ → ℕ
ntohll n =
    word4 (n / 2 ^ 56 % 256) (n / 2 ^ 48 % 256) (n / 2 ^ 40 % 256) (n / 2 ^ 32 % 256)
    + 2 ^ 32 * word4 (n / 2 ^ 24 % 256) (n / 2 ^ 16 % 256) (n / 256 % 256) (n % 256)

-- `(hi << 4) | lo` in a byte; `lo` is a nibble, so `|` adds.
abbrev pub nibbles : ℕ → ℕ → ℕ
nibbles hi lo = (hi * 16 + lo) % 256

unfoldable pub set_ptp_frame_header : PtpMsgHeader → PtpFrameHeader
set_ptp_frame_header header = record {
  major_sdo_id_message_type = nibbles header.major_sdo_id header.message_type;
  minor_version_ptp_version_ptp = nibbles header.minor_version_ptp header.version_ptp;
  message_length = htons header.message_length;
  domain_number = header.domain_number;
  minor_sdo_id = header.minor_sdo_id;
  flags = take 2 header.flags;
  correction_field = htonll header.correction_field;
  message_type_specific = take 4 header.message_type_specific;
  source_port_identity = record {
    clock_identity = take 8 header.source_port_identity.clock_identity;
    port_number = htons header.source_port_identity.port_number;
  };
  sequence_id = htons header.sequence_id;
  control_field = header.control_field;
  log_message_interval = header.log_message_interval;
}

unfoldable pub get_ptp_msg_header : PtpFrameHeader → PtpMsgHeader
get_ptp_msg_header frame = record {
  major_sdo_id = frame.major_sdo_id_message_type / 16 % 16;
  message_type = frame.major_sdo_id_message_type % 16;
  minor_version_ptp = frame.minor_version_ptp_version_ptp / 16 % 16;
  version_ptp = frame.minor_version_ptp_version_ptp % 16;
  message_length = ntohs frame.message_length;
  domain_number = frame.domain_number;
  minor_sdo_id = frame.minor_sdo_id;
  flags = take 2 frame.flags;
  correction_field = ntohll frame.correction_field;
  message_type_specific = take 4 frame.message_type_specific;
  source_port_identity = record {
    clock_identity = take 8 frame.source_port_identity.clock_identity;
    port_number = ntohs frame.source_port_identity.port_number;
  };
  sequence_id = ntohs frame.sequence_id;
  control_field = frame.control_field;
  log_message_interval = frame.log_message_interval;
}

-- `PTPMsgType`.
abbrev pub sync : ℕ
sync = 0

abbrev pub pdelay_req : ℕ
pdelay_req = 2

abbrev pub pdelay_resp : ℕ
pdelay_resp = 3

abbrev pub follow_up : ℕ
follow_up = 8

abbrev pub pdelay_resp_follow_up : ℕ
pdelay_resp_follow_up = 10

unfoldable pub ptp_msg_header_template : ℕ → ℕ → PortIdentity → ℕ → ℕ → ℕ → PtpMsgHeader
ptp_msg_header_template msgtype len port_id seqid log_message_interval correction = record {
  major_sdo_id = 1;
  message_type = msgtype;
  minor_version_ptp = 1;
  version_ptp = 2;
  message_length = len;
  domain_number = 0;
  minor_sdo_id = 0;
  flags = 2 ∷ 0 ∷ [];
  correction_field = correction;
  message_type_specific = 0 ∷ 0 ∷ 0 ∷ 0 ∷ [];
  source_port_identity = port_id;
  sequence_id = seqid;
  control_field = (if msgtype == sync then 0 else (if msgtype == follow_up then 2 else 5));
  log_message_interval = log_message_interval;
}
