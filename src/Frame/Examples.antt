-- ===== src/Frame/Examples.antt =====
-- The header of a request at concrete data.
use ziggo_caa_s_switch.Prelude.{◌≡◌, refl, arith, replicate, ◌-◌, ◌^◌}
use ziggo_caa_s_switch.Frame.{
  PtpMsgHeader, ptp_msg_header_template, set_ptp_frame_header, get_ptp_msg_header,
}
use ziggo_caa_s_switch.Frame.RoundTrip.{header-roundtrip}

abbrev request : PtpMsgHeader
unfolding ptp_msg_header_template
request =
    record (ptp_msg_header_template 2 54
      (record { clock_identity = replicate 8 0xab; port_number = 3 }) 65535 0 0) {
        correction_field = 2 ^ 64 - 1;
      }

header-roundtrip_example : get_ptp_msg_header (set_ptp_frame_header request) ≡ request
unfolding request ptp_msg_header_template
header-roundtrip_example = header-roundtrip request (record {
  major_sdo_id_lt = omega arith;
  message_type_lt = omega arith;
  minor_version_ptp_lt = omega arith;
  version_ptp_lt = omega arith;
  message_length_lt = omega arith;
  flags_length = refl;
  correction_field_lt = omega arith;
  specific_length = refl;
  clock_length = refl;
  port_number_lt = omega arith;
  sequence_id_lt = omega arith;
})
