-- ===== src/Frame/RoundTrip.antt =====
-- A header that is written to a frame and read from it again (time_sync/msg_frame.c).
use ziggo_caa_s_switch.Prelude.{
  ℕ, zero, suc, ◌/◌, ◌%◌, ◌^◌, ◌<◌, ◌≡◌, refl, ap, List, [], ◌∷◌, length, take, arith,
}
use ziggo_caa_s_switch.Frame.{
  PtpMsgHeader, nibbles, htons, ntohs, htonl, ntohl, htonll, ntohll, set_ptp_frame_header,
  get_ptp_msg_header,
}

pub htons-roundtrip : (h : ℕ) → h < 65536 → ntohs (htons h) ≡ h
unfolding htons ntohs
htons-roundtrip h lt = omega arith

pub htonl-roundtrip : (h : ℕ) → h < 2 ^ 32 → ntohl (htonl h) ≡ h
unfolding htonl ntohl
htonl-roundtrip h lt = omega arith

pub htonll-roundtrip : (h : ℕ) → h < 2 ^ 64 → ntohll (htonll h) ≡ h
unfolding htonll ntohll
htonll-roundtrip h lt = omega arith

nibbles-high : (hi lo : ℕ) → hi < 16 → lo < 16 → nibbles hi lo / 16 % 16 ≡ hi
nibbles-high hi lo h k = omega arith

nibbles-low : (hi lo : ℕ) → hi < 16 → lo < 16 → nibbles hi lo % 16 ≡ lo
nibbles-low hi lo h k = omega arith

pub take-all : (n : ℕ) (xs : List ℕ) → length xs ≡ n → take n (take n xs) ≡ xs
take-all zero [] e = refl
take-all zero (x ∷ xs) e = absurd (omega arith)
take-all (suc n) [] e = absurd (omega arith)
take-all (suc n) (x ∷ xs) e = ap (◌∷◌ x) (take-all n xs (omega arith))

-- Each field of the header fits its C type, and each array has its length.
pub record InWidth (h : PtpMsgHeader) : Type 0 where
  pub major_sdo_id_lt : h.major_sdo_id < 16
  pub message_type_lt : h.message_type < 16
  pub minor_version_ptp_lt : h.minor_version_ptp < 16
  pub version_ptp_lt : h.version_ptp < 16
  pub message_length_lt : h.message_length < 65536
  pub flags_length : length h.flags ≡ 2
  pub correction_field_lt : h.correction_field < 2 ^ 64
  pub specific_length : length h.message_type_specific ≡ 4
  pub clock_length : length h.source_port_identity.clock_identity ≡ 8
  pub port_number_lt : h.source_port_identity.port_number < 65536
  pub sequence_id_lt : h.sequence_id < 65536

-- A header whose fields fit their types comes back from its frame as it was.
pub header-roundtrip :
    (h : PtpMsgHeader) → InWidth h → get_ptp_msg_header (set_ptp_frame_header h) ≡ h
unfolding set_ptp_frame_header get_ptp_msg_header
header-roundtrip h v =
    rw
      (
        nibbles-high h.major_sdo_id h.message_type v.major_sdo_id_lt v.message_type_lt,
        nibbles-low h.major_sdo_id h.message_type v.major_sdo_id_lt v.message_type_lt,
        nibbles-high h.minor_version_ptp h.version_ptp v.minor_version_ptp_lt v.version_ptp_lt,
        nibbles-low h.minor_version_ptp h.version_ptp v.minor_version_ptp_lt v.version_ptp_lt,
        htons-roundtrip h.message_length v.message_length_lt,
        take-all 2 h.flags v.flags_length,
        htonll-roundtrip h.correction_field v.correction_field_lt,
        take-all 4 h.message_type_specific v.specific_length,
        take-all 8 h.source_port_identity.clock_identity v.clock_length,
        htons-roundtrip h.source_port_identity.port_number v.port_number_lt,
        htons-roundtrip h.sequence_id v.sequence_id_lt,
      )
      refl
