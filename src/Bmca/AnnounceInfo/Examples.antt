-- ===== src/Bmca/AnnounceInfo/Examples.antt =====
-- A port of the bridge receives an announcement of a better clock.
use ziggo_caa_s_switch.Prelude.{arith, [], ◌∷◌, none, replicate, pos}
use ziggo_caa_s_switch.Ptp.Globals.{aged, other_info}
use ziggo_caa_s_switch.Bmca.Samples.{zero_ns, vector, port, bridge}
use ziggo_caa_s_switch.Bmca.AnnounceInfo.{PtpMsgAnnounce, PortAnnounceInformationSm, current}
use ziggo_caa_s_switch.Bmca.AnnounceInfo.Machine.{port_announce_information_sm_recv_announce}
use ziggo_caa_s_switch.Bmca.AnnounceInfo.Loops.{Ends}
use ziggo_caa_s_switch.Bmca.AnnounceInfo.Ending.{port_announce_information_sm_recv_announce-Ends}

abbrev announce : PtpMsgAnnounce
announce = record {
  flags1 = 8;
  source_clock_identity = replicate 8 7;
  source_port_number = 1;
  log_message_interval = pos 0;
  current_utc_offset = 37;
  grandmaster_priority1 = 100;
  clock_class = 248;
  clock_accuracy = 254;
  offset_scaled_log_variance = 0x436a;
  grandmaster_priority2 = 248;
  grandmaster_identity = replicate 8 7;
  steps_removed = 0;
  time_source = 0xa0;
  length_field = 8;
  path_sequence = replicate 8 7 ∷ [];
}

abbrev machine : PortAnnounceInformationSm
machine = record {
  announce_receipt_timeout_time = zero_ns;
  message_priority = vector 248 1 0;
  rcvd_info = other_info;
  rcvd_announce = none;
  instance_global = bridge;
  port = port 1 aged (vector 248 1 0);
  state = current;
  last_state = current;
}

port_announce_information_sm_recv_announce-Ends_example :
    Ends (port_announce_information_sm_recv_announce machine zero_ns announce)
port_announce_information_sm_recv_announce-Ends_example =
    port_announce_information_sm_recv_announce-Ends machine zero_ns announce
      (omega arith, omega arith) (omega arith) (omega arith) tt
