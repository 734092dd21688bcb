-- ===== src/Bmca/AnnounceTransmit/Examples.antt =====
-- A master port of the bridge announces its grandmaster.
use ziggo_caa_s_switch.Prelude.{
  ℕ, ◌≡◌, ◌≤◌, ◌<◌, ◌/◌, get_or, refl, arith, [], ◌∷◌, true, false, none, some, replicate, pos,
}
use ziggo_caa_s_switch.Ptp.ScaledNs.{UScaledNs, uscaledns_add, uscaledns_compare}
use ziggo_caa_s_switch.Ptp.Globals.{
  PerPtpInstanceGlobal, PerPortGlobal, mine, master_port, disabled_port,
}
use ziggo_caa_s_switch.Bmca.Samples.{zero_ns, vector, port, bridge}
use ziggo_caa_s_switch.Bmca.AnnounceInfo.{PtpMsgAnnounce, announced_vector, announced_time}
use ziggo_caa_s_switch.Bmca.AnnounceTransmit.{
  PortAnnounceTransmitSm, idle, set_announce, announce_flags, port_announce_transmit_sm_run,
}
use ziggo_caa_s_switch.Bmca.AnnounceTransmit.Rounds.{IsLater, Ends}
use ziggo_caa_s_switch.Bmca.AnnounceTransmit.Ending.{port_announce_transmit_sm_run-Ends}
use ziggo_caa_s_switch.Bmca.AnnounceTransmit.Messages.{set_announce-announced}

abbrev settled : PerPtpInstanceGlobal
settled = record bridge {
  selected_state = disabled_port ∷ master_port ∷ replicate 3 disabled_port;
  selected = replicate 5 true;
  n_path_trace = 1;
}

abbrev master : PerPortGlobal
master = port 1 mine (vector 248 1 0)

abbrev second : UScaledNs
second = record { subns = 0; nsec = 1000000000; nsec_msb = 0 }

abbrev machine : PortAnnounceTransmitSm
machine = record {
  announce_send_time = second;
  number_announce_transmission = 0;
  interval2 = second;
  instance_global = settled;
  port = master;
  sequence_id = 7;
  tx_announce = none;
  new_info = true;
  announce_slowdown = false;
  state = idle;
  last_state = idle;
}

second-IsLater : IsLater zero_ns second
unfolding uscaledns_compare uscaledns_add
second-IsLater = refl

port_announce_transmit_sm_run-Ends_example :
    Ends settled master 7 (port_announce_transmit_sm_run zero_ns machine)
port_announce_transmit_sm_run-Ends_example =
    port_announce_transmit_sm_run-Ends zero_ns machine tt (omega arith) second-IsLater
      second-IsLater

abbrev announce : PtpMsgAnnounce
announce = record {
  flags1 = 8;
  source_clock_identity = replicate 8 1;
  source_port_number = 1;
  log_message_interval = pos 0;
  current_utc_offset = 37;
  grandmaster_priority1 = 248;
  clock_class = 248;
  clock_accuracy = 254;
  offset_scaled_log_variance = 0x436a;
  grandmaster_priority2 = 248;
  grandmaster_identity = replicate 8 1;
  steps_removed = 0;
  time_source = 0xa0;
  length_field = 8;
  path_sequence = replicate 8 0 ∷ [];
}

announce-set : set_announce settled master ≡ some announce
unfolding set_announce announce_flags
announce-set = refl

set_announce-announced_example :
    (announced_time announce ≡ settled.time)
    × ((announced_vector (vector 0 0 0) announce).root_system_identity
        ≡ master.master_priority.root_system_identity)
    × ((announced_vector (vector 0 0 0) announce).steps_removed ≡ settled.master_steps_removed)
    × ((announced_vector (vector 0 0 0) announce).source_port_clock_identity ≡ settled.this_clock)
    × ((announced_vector (vector 0 0 0) announce).port_number ≡ master.this_port)
    × (announce.length_field ≤ 64)
    × (announce.length_field / 8 ≡ settled.n_path_trace)
    × ((i : ℕ)
        → i < settled.n_path_trace
        → get_or announce.path_sequence i [] ≡ get_or settled.path_trace i [])
set_announce-announced_example =
    set_announce-announced settled master announce (vector 0 0 0) announce-set
