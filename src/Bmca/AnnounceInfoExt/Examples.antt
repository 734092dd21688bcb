-- ===== src/Bmca/AnnounceInfoExt/Examples.antt =====
-- The slave port of the bridge hears an announcement.
use ziggo_caa_s_switch.Prelude.{◌≡◌, refl, inr, arith, [], ◌∷◌, true, false, none, replicate, pos}
use ziggo_caa_s_switch.Ptp.Globals.{
  PerPtpInstanceGlobal, received, master_port, slave_port, disabled_port,
}
use ziggo_caa_s_switch.Bmca.Samples.{vector, port, bridge}
use ziggo_caa_s_switch.Bmca.AnnounceInfo.{PtpMsgAnnounce}
use ziggo_caa_s_switch.Bmca.AnnounceInfoExt.{
  PortAnnounceInformationExtSm, initialize, done, port_announce_information_ext_sm_recv_announce,
}
use ziggo_caa_s_switch.Bmca.AnnounceInfoExt.Taking.{
  after, port_announce_information_ext_sm_recv_announce-after,
}

abbrev outside : PerPtpInstanceGlobal
outside = record bridge {
  external_port_configuration_enabled = true;
  selected_state = master_port ∷ slave_port ∷ replicate 3 disabled_port;
}

abbrev announce : PtpMsgAnnounce
announce = record {
  flags1 = 8;
  source_clock_identity = replicate 8 7;
  source_port_number = 1;
  log_message_interval = pos 0;
  current_utc_offset = 37;
  grandmaster_priority1 = 100;
  clock_class = 248;
  clock_accuracy = 254;
  offset_scaled_log_variance = 0x436a;
  grandmaster_priority2 = 248;
  grandmaster_identity = replicate 8 7;
  steps_removed = 0;
  time_source = 0xa0;
  length_field = 8;
  path_sequence = replicate 8 7 ∷ [];
}

abbrev machine : PortAnnounceInformationExtSm
machine = record {
  rcvd_announce_paie = false;
  rcvd_announce = none;
  instance_global = outside;
  port = port 1 received (vector 100 7 0);
  state = initialize;
  last_state = initialize;
}

port_announce_information_ext_sm_recv_announce-after_example :
    port_announce_information_ext_sm_recv_announce machine announce ≡ done (after machine announce)
port_announce_information_ext_sm_recv_announce-after_example =
    port_announce_information_ext_sm_recv_announce-after machine announce (omega arith) refl refl
      refl (inr (refl, refl))
