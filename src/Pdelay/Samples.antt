-- ===== src/Pdelay/Samples.antt =====
-- The two ends of a link of 500 ns, whose responder takes 1000 ns for its answer, as data for the tests.
use ziggo_caa_s_switch.Prelude.{ℕ, true, false, none, some, replicate}
use ziggo_caa_s_switch.Ptp.ScaledNs.{UScaledNs}
use ziggo_caa_s_switch.Bmca.Samples.{zero_ns, vector, port, bridge}
use ziggo_caa_s_switch.Ptp.Globals.{MdEntityGlobal, mine}
use ziggo_caa_s_switch.Pdelay.Messages.{TsuTimestamp}
use ziggo_caa_s_switch.Pdelay.Request.{
  MdPdelayReqSm, set_pdelay_req, send_pdelay_req, initial_send_pdelay_req, waiting_for_pdelay_resp,
}
use ziggo_caa_s_switch.Pdelay.Response.{MdPdelayRespSm, waiting_for_pdelay_req}

abbrev pub ns : ℕ → UScaledNs
ns n = record { subns = 0; nsec = n; nsec_msb = 0 }

abbrev pub entity : MdEntityGlobal
entity = record {
  is_measuring_delay = true;
  as_capable_across_domains = false;
  allowed_lost_responses = 255;
  pdelay_req_interval = ns 1000000000;
  mean_link_delay_thresh = record { subns = 0; nsec = 0; nsec_msb = 0xffff };
  allowed_faults = 255;
  sync_sequence_id = 0;
}

-- The memory of a requester that has just sent its request, at time 0.
abbrev pub memory : MdPdelayReqSm
memory = record {
  pdelay_interval_timer = zero_ns;
  rcvd_pdelay_resp = false;
  rcvd_pdelay_resp_ptr = none;
  rcvd_pdelay_resp_follow_up = false;
  rcvd_pdelay_resp_follow_up_ptr = none;
  tx_pdelay_req_ptr = none;
  rcvd_md_timestamp_receive_md_preq = false;
  pdelay_req_sequence_id = 65535;
  lost_responses = 0;
  neighbor_rate_ratio_valid = false;
  detected_faults = 0;
  port_enabled0 = true;
  port = port 1 mine (vector 248 1 0);
  instance_global = bridge;
  md_entity = entity;
  t1 = zero_ns;
  t2 = zero_ns;
  t3 = zero_ns;
  t4 = zero_ns;
  pdelay_resp_event_ingress_timestamps = replicate 64 zero_ns;
  corrected_responder_event_timestamps = replicate 64 zero_ns;
  list_head_prop_time = 0;
  list_tail_prop_time = 63;
  is_empty_prop_time = true;
  state = send_pdelay_req;
  last_state = send_pdelay_req;
}

abbrev pub requester : MdPdelayReqSm
requester = record memory { tx_pdelay_req_ptr = some (set_pdelay_req memory) }

abbrev pub responder : MdPdelayRespSm
responder = record {
  rcvd_pdelay_req = false;
  rcvd_md_timestamp_receive_md_presp = false;
  tx_pdelay_resp_ptr = none;
  tx_pdelay_resp_follow_up_ptr = none;
  port_enabled1 = true;
  port = port 2 mine (vector 248 1 0);
  instance_global = bridge;
  rcvd_pdelay_req_ptr = none;
  t2 = zero_ns;
  t3 = zero_ns;
  state = waiting_for_pdelay_req;
  last_state = waiting_for_pdelay_req;
}

abbrev pub stamp : ℕ → TsuTimestamp
stamp n = record { ts = ns n; sequence_id = 65535; msg_type = 2 }

-- The machine after its initialisation, which has sent its first request, and after the time stamp of
-- that request.
abbrev pub initialised : MdPdelayReqSm
initialised = record requester {
  md_entity = record entity { is_measuring_delay = false };
  state = initial_send_pdelay_req;
  last_state = initial_send_pdelay_req;
}

abbrev pub stamped : MdPdelayReqSm
stamped = record initialised {
  t1 = ns 1000;
  state = waiting_for_pdelay_resp;
  last_state = waiting_for_pdelay_resp;
}
