-- ===== src/Bmca/Samples.antt =====
-- A bridge with one announcing neighbour, as data for the tests of the machines.
use ziggo_caa_s_switch.Prelude.{pos, ℕ, List, [], ◌∷◌, true, false, replicate}
use ziggo_caa_s_switch.Ptp.ScaledNs.{UScaledNs}
use ziggo_caa_s_switch.Ptp.Priority.{PriorityVector}
use ziggo_caa_s_switch.Ptp.Doubles.{one}
use ziggo_caa_s_switch.Ptp.Globals.{
  TimeProperties, PerPortGlobal, PerPtpInstanceGlobal, disabled_port, BmcsInfoIs, received, aged,
  disabled,
}

abbrev pub zero_ns : UScaledNs
zero_ns = record { subns = 0; nsec = 0; nsec_msb = 0 }

abbrev plain_time : TimeProperties
plain_time = record {
  leap61 = false;
  leap59 = false;
  current_utc_offset_valid = false;
  ptp_timescale = true;
  time_traceable = false;
  frequency_traceable = false;
  current_utc_offset = 37;
  time_source = 0xa0;
}

-- The vector of a clock whose identity is eight times one byte.
abbrev pub vector : ℕ → ℕ → ℕ → PriorityVector
vector priority1 byte steps = record {
  root_system_identity = record {
    priority1 = priority1;
    clock_class = 248;
    clock_accuracy = 254;
    offset_scaled_log_variance = 0x436a;
    priority2 = 248;
    clock_identity = replicate 8 byte;
  };
  steps_removed = steps;
  source_port_clock_identity = replicate 8 byte;
  source_port_number = 0;
  port_number = 0;
}

abbrev pub port : ℕ → BmcsInfoIs → PriorityVector → PerPortGlobal
port number info v = record {
  as_capable = true;
  asymmetry_measurement_mode = false;
  sync_receipt_timeout_time_interval = zero_ns;
  neighbor_rate_ratio = one;
  mean_link_delay = zero_ns;
  compute_neighbor_rate_ratio = true;
  compute_mean_link_delay = true;
  port_oper = true;
  ptp_port_enabled = true;
  this_port = number;
  announce_receipt_timeout = 3;
  announce_receipt_timeout_time_interval = zero_ns;
  info_is = info;
  master_priority = vector 248 1 0;
  current_log_announce_interval = pos 0;
  initial_log_announce_interval = 0;
  announce_interval = record { subns = 0; nsec = 1000000000; nsec_msb = 0 };
  new_info = false;
  port_priority = v;
  port_steps_removed = 0;
  rcvd_msg = false;
  updt_info = false;
  ann_time = plain_time;
  ann_path_sequence_count = 1;
  ann_path_sequence = replicate 8 (replicate 8 7);
}

-- Port 1 has heard a better clock; port 2 has aged; ports 3 and 4 are disabled.
abbrev pub bridge_ports : List PerPortGlobal
bridge_ports =
    port 1 received (vector 100 7 0)
    ∷ port 2 aged (vector 248 1 0)
    ∷ port 3 disabled (vector 248 1 0)
    ∷ port 4 disabled (vector 248 1 0)
    ∷ []

abbrev pub bridge : PerPtpInstanceGlobal
bridge = record {
  begin = false;
  instance_enable = true;
  gm_present = false;
  selected_state = replicate 5 disabled_port;
  this_clock = replicate 8 1;
  sync_receipt_timeout_time = zero_ns;
  reselect = replicate 5 true;
  selected = replicate 5 false;
  master_steps_removed = 0;
  time = plain_time;
  sys_time = plain_time;
  system_priority = vector 248 1 0;
  gm_priority = vector 248 1 0;
  last_gm_priority = vector 248 1 0;
  gm_steps_removed = 0;
  n_path_trace = 0;
  path_trace = replicate 8 (replicate 8 0);
  external_port_configuration_enabled = false;
  gm_identity = replicate 8 0;
}
