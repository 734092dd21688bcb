-- ===== src/Sync/Examples.antt =====
-- The MDSyncSend machine of port 1, as it starts and as its sequence ids end.
use ziggo_caa_s_switch.Prelude.{
  ℕ, ◌≡◌, ◌-◌, ◌<◌, ◌^◌, refl, arith, inl, List, [], ◌∷◌, false, none, replicate,
}
use ziggo_caa_s_switch.Ptp.ScaledNs.{uscaledns_subtract}
use ziggo_caa_s_switch.Ptp.ScaledNs.Value.{InWidth}
use ziggo_caa_s_switch.Ptp.Doubles.{one}
use ziggo_caa_s_switch.Ptp.Globals.{mine}
use ziggo_caa_s_switch.Bmca.Samples.{zero_ns, vector, port, bridge}
use ziggo_caa_s_switch.Frame.{PtpFrameHeader, ptp_msg_header_template, set_ptp_frame_header}
use ziggo_caa_s_switch.Pdelay.Messages.{TsuTimestamp}
use ziggo_caa_s_switch.Pdelay.Samples.{ns, entity}
use ziggo_caa_s_switch.Sync.Messages.{
  PtpMsgFollowUp, PtpFrameFollowUp, frame_follow_up, recv_sync, recv_follow_up, follow_up-roundtrip,
}
use ziggo_caa_s_switch.Sync.Send.{
  MdSyncSend, MdSyncSendSm, sync, follow_up, done, initializing, set_sync_two_step,
  init_md_sync_send_sm,
}
use ziggo_caa_s_switch.Sync.Send.Events.{Event, run, recv_md_sync, txts, and_then, handle_all}
use ziggo_caa_s_switch.Sync.Send.Safety.{Ends, handle_all-Ends}
use ziggo_caa_s_switch.Sync.Send.Sending.{IsReady}
use ziggo_caa_s_switch.Sync.Send.Wrapping.{IsStuck, handle_all-IsSilent}
use ziggo_caa_s_switch.Sync.Send.Following.{IsWhole, IsLater, Carries, handle_all-Carries}
use ziggo_caa_s_switch.Ptp.ScaledNs.{uscaledns_compare, uscaledns_add}
use ziggo_caa_s_switch.Sync.Receive as Receive
use ziggo_caa_s_switch.Sync.Receive.Events as ReceiveEvents
use ziggo_caa_s_switch.Sync.Receive.Safety as Safety
use ziggo_caa_s_switch.Sync.Receive.Safety.{received_all-Ends}
use ziggo_caa_s_switch.Sync.Link.{Relays, carried_correction, link-Relays}

abbrev md : MdSyncSend
md = record {
  domain_number = 0;
  follow_up_correction_field = record { subns = 0x8000; nsec = 20; nsec_msb = 0 };
  source_port_identity = record { clock_identity = replicate 8 7; port_number = 1 };
  log_message_interval = 0;
  precise_origin_timestamp = record { seconds_msb = 0; seconds_lsb = 5; nanoseconds = 999999999 };
  upstream_tx_time = ns 1000;
  rate_ratio = one;
  gm_time_base_indicator = 0;
  last_gm_phase_change = zero_ns;
  last_gm_freq_change = record { num = 0; scale = 0 };
}

-- The machine waits for an MDSync, with this next sequence id.
abbrev machine : ℕ → MdSyncSendSm
machine n = record {
  rcvd_md_sync_mdss = false;
  rcvd_md_sync_ptr = none;
  tx_sync_ptr = none;
  rcvd_md_timestamp_receive_mdss = false;
  rcvd_md_timestamp_receive_ptr = none;
  tx_follow_up_ptr = none;
  sync_event_egress_timestamp = zero_ns;
  instance_global = bridge;
  md_entity = record entity { sync_sequence_id = n };
  port = port 1 mine (vector 248 1 0);
  state = initializing;
  last_state = initializing;
}

abbrev stamp : ℕ → TsuTimestamp
stamp n = record { ts = ns 1700; sequence_id = n; msg_type = 0 }

ready : (n : ℕ) → IsReady (machine n)
ready n = record {
  resting = inl (refl, refl);
  no_stamp = refl;
  no_asymmetry = refl;
  running = record {
    operational = refl;
    enabled = refl;
    capable = refl;
    not_begin = refl;
    instance_enabled = refl;
  };
}

fits : (n : ℕ) → n < 2 ^ 64 → InWidth (ns n)
fits n h = record { subns_lt = omega arith; nsec_lt = h; msb_lt = omega arith }

md-IsWhole : IsWhole md
md-IsWhole = record {
  clock_length = refl;
  port_lt = omega arith;
  seconds_msb_lt = omega arith;
  seconds_lsb_lt = omega arith;
  nanoseconds_lt = omega arith;
  indicator_lt = omega arith;
  phase_change = fits 0 (omega arith);
  correction = record { subns_lt = omega arith; nsec_lt = omega arith; msb_lt = omega arith };
  upstream = fits 1000 (omega arith);
}

md-IsLater : IsLater (ns 1700) md
unfolding uscaledns_subtract
md-IsLater = record {
  fits = fits 1700 (omega arith);
  later = omega arith;
  carries = refl;
  within = omega arith;
}

handle_all-Carries_example :
    (s : MdSyncSendSm) × (fr : PtpFrameHeader) × (fu : PtpFrameFollowUp) × (handle_all
        (recv_md_sync 0 md ∷ txts 0 (stamp 65534) ∷ [])
        (machine 65534)
      ≡ done s (sync 1 fr ∷ follow_up 1 fu ∷ []))
    × IsReady s
    × Carries 65534 (ns 1700) md (recv_sync fr) (recv_follow_up fu)
handle_all-Carries_example =
    handle_all-Carries 0 0 md (stamp 65534) (machine 65534) (ready 65534) (omega arith) refl
      md-IsWhole md-IsLater

abbrev message : PtpMsgFollowUp
unfolding ptp_msg_header_template
message = record {
  head = ptp_msg_header_template 8 76 md.source_port_identity 7 0 (2 ^ 64 - 1);
  precise_origin_timestamp = md.precise_origin_timestamp;
  follow_up_information_tlv = record {
    tlv_type = 3;
    length_field = 28;
    organization_id = 0 ∷ 0x80 ∷ 0xc2 ∷ [];
    organization_sub_type = 0 ∷ 0 ∷ 1 ∷ [];
    cumulative_scaled_rate_offset = 2 ^ 32 - 1;
    gm_time_base_indicator = 513;
    last_gm_phase_change = ns 77;
    scaled_last_gm_freq_change = 0;
  };
}

-- The neighbour waits for a sync message; the link takes 500 ns.
abbrev receiver : Receive.MdSyncReceiveSm
receiver = record {
  follow_up_receipt_timeout_time = zero_ns;
  rcvd_sync = false;
  rcvd_follow_up = false;
  rcvd_sync_ptr = none;
  rcvd_follow_up_ptr = none;
  tx_md_sync_receive_ptr_mdsr = none;
  upstream_sync_interval = zero_ns;
  sync_event_ingress_timestamp = zero_ns;
  instance_global = bridge;
  port = record (port 2 mine (vector 248 1 0)) { mean_link_delay = ns 500 };
  state = Receive.discard;
  last_state = Receive.discard;
}

link-Relays_example :
    (s : MdSyncSendSm) × (fr : PtpFrameHeader) × (fu : PtpFrameFollowUp)
    × (r : Receive.MdSyncReceiveSm) × (m : Receive.MdSyncReceive) × (handle_all
          (recv_md_sync 0 md ∷ txts 0 (stamp 7) ∷ [])
          (machine 7)
        ≡ done s (sync 1 fr ∷ follow_up 1 fu ∷ []))
    × (ReceiveEvents.handle_all
          (ReceiveEvents.recv_sync (ns 9000) (stamp 7) (recv_sync fr)
            ∷ ReceiveEvents.recv_follow_up (ns 9000) (recv_follow_up fu)
            ∷ [])
          receiver
        ≡ Receive.done r (m ∷ []))
    × Relays (carried_correction (ns 1700) md) (ns 1700) (ns 500) md m
unfolding uscaledns_compare uscaledns_add
link-Relays_example =
    link-Relays 0 0 md (stamp 7) (machine 7) (ns 9000) (ns 9000) (stamp 7) receiver (ready 7)
      (omega arith) refl md-IsWhole md-IsLater
      (record {
        resting = inl (refl, refl);
        no_follow_up = refl;
        no_asymmetry = refl;
        operational = refl;
        enabled = refl;
        capable = refl;
        not_begin = refl;
        instance_enabled = refl;
      })
      (record {
        ingress_fits = fits 1700 (omega arith);
        delay_fits = fits 500 (omega arith);
        after = omega arith;
        in_time = refl;
      })
      refl

received_all-Ends_example : Safety.Ends (
    ReceiveEvents.and_then
      (ReceiveEvents.handle_all
        (ReceiveEvents.recv_follow_up (ns 1) message ∷ ReceiveEvents.run (ns 5) ∷ []))
      (Receive.init_md_sync_receive_sm receiver))
received_all-Ends_example =
    received_all-Ends receiver
      (ReceiveEvents.recv_follow_up (ns 1) message ∷ ReceiveEvents.run (ns 5) ∷ [])

abbrev later_events : List Event
later_events = txts 0 (stamp 65535) ∷ recv_md_sync 0 md ∷ run 0 ∷ txts 0 (stamp 0) ∷ []

handle_all-IsSilent_example :
    (s : MdSyncSendSm) × (handle_all (recv_md_sync 0 md ∷ later_events) (machine 65535)
      ≡ done s (sync 1 (set_ptp_frame_header (set_sync_two_step (machine 65535) md).head) ∷ []))
    × IsStuck s
handle_all-IsSilent_example =
    handle_all-IsSilent 0 md later_events (machine 65535) (ready 65535) refl
      (tt, (tt, (tt, (tt, tt))))

handle_all-Ends_example : Ends (
    and_then
      (handle_all (recv_md_sync 9 md ∷ txts 0 (stamp 9) ∷ run 0 ∷ []))
      (init_md_sync_send_sm 9 (machine 3)))
handle_all-Ends_example =
    handle_all-Ends 9 (machine 3) (recv_md_sync 9 md ∷ txts 0 (stamp 9) ∷ run 0 ∷ [])

follow_up-roundtrip_example : recv_follow_up (frame_follow_up message) ≡ message
unfolding message ptp_msg_header_template
follow_up-roundtrip_example =
    follow_up-roundtrip message
      (record {
        major_sdo_id_lt = omega arith;
        message_type_lt = omega arith;
        minor_version_ptp_lt = omega arith;
        version_ptp_lt = omega arith;
        message_length_lt = omega arith;
        flags_length = refl;
        correction_field_lt = omega arith;
        specific_length = refl;
        clock_length = refl;
        port_number_lt = omega arith;
        sequence_id_lt = omega arith;
      })
      (record {
        seconds_msb_lt = omega arith;
        seconds_lsb_lt = omega arith;
        nanoseconds_lt = omega arith;
        tlv_type_lt = omega arith;
        length_field_lt = omega arith;
        id_length = refl;
        sub_type_length = refl;
        offset_lt = omega arith;
        indicator_lt = omega arith;
        phase_change = fits 77 (omega arith);
        freq_change_lt = omega arith;
      })
