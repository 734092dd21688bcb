-- ===== src/Sync/Send/Following.antt =====
-- The two frames that the MDSyncSend machine sends for an MDSync, as the neighbour reads them
-- (time_sync/md_sync_send_sm.c, eth_frame.c).
use ziggo_caa_s_switch.Prelude.{
  ℕ, ◌+◌, ◌-◌, ◌%◌, ◌^◌, ◌<◌, ◌≤◌, ◌≡◌, ◌∙◌, refl, ap, Bool, true, false, [], ◌∷◌, ◌==◌, length,
  inr, arith, u16, if◌then◌else◌,
}
use ziggo_caa_s_switch.Ptp.ScaledNs.{UScaledNs, uscaledns_subtract, uscaledns_add, uint64_uscaledns}
use ziggo_caa_s_switch.Ptp.ScaledNs.Value.{
  InWidth, value, value-uscaledns_add, value-uscaledns_subtract, uscaledns_subtract-InWidth,
}
use ziggo_caa_s_switch.Frame.{PtpFrameHeader, ptp_msg_header_template, set_ptp_frame_header}
use ziggo_caa_s_switch.Frame.RoundTrip as RoundTrip
use ziggo_caa_s_switch.Frame.RoundTrip.{header-roundtrip}
use ziggo_caa_s_switch.Pdelay.Messages.{TsuTimestamp}
use ziggo_caa_s_switch.Sync.Messages.{
  PtpMsgSync, PtpMsgFollowUp, PtpFrameFollowUp, frame_follow_up, recv_sync, recv_follow_up, Fits,
  follow_up-roundtrip,
}
use ziggo_caa_s_switch.Sync.Send.{
  MdSyncSend, MdSyncSendSm, sync, follow_up, done, set_sync_two_step, set_follow_up,
}
use ziggo_caa_s_switch.Sync.Send.Sending.{IsReady, followed, recv_md_sync-Sends, txts-Follows}
use ziggo_caa_s_switch.Sync.Send.Events.{recv_md_sync, txts, handle, and_then, handle_all}

-- The fields of an MDSync fit their types.
pub record IsWhole (md : MdSyncSend) : Type 0 where
  pub clock_length : length md.source_port_identity.clock_identity ≡ 8
  pub port_lt : md.source_port_identity.port_number < 65536
  pub seconds_msb_lt : md.precise_origin_timestamp.seconds_msb < 65536
  pub seconds_lsb_lt : md.precise_origin_timestamp.seconds_lsb < 2 ^ 32
  pub nanoseconds_lt : md.precise_origin_timestamp.nanoseconds < 2 ^ 32
  pub indicator_lt : md.gm_time_base_indicator < 65536
  pub phase_change : InWidth md.last_gm_phase_change
  pub correction : InWidth md.follow_up_correction_field
  pub upstream : InWidth md.upstream_tx_time

-- The frame left at `ts`, after the upstream time, the sub-nanoseconds carry as they should, and the
-- correction fits its field.
pub record IsLater (ts : UScaledNs) (md : MdSyncSend) : Type 0 where
  pub fits : InWidth ts
  pub later : value md.upstream_tx_time ≤ value ts
  pub carries :
      (md.follow_up_correction_field.subns + (uscaledns_subtract ts md.upstream_tx_time).subns
        == 0xffff)
      ≡ false
  pub within : value md.follow_up_correction_field + (value ts - value md.upstream_tx_time) < 2 ^ 64

uint64-value : (t : UScaledNs) → t.subns < 65536 → uint64_uscaledns t ≡ value t % 2 ^ 64
unfolding uint64_uscaledns
uint64-value t h = omega (arith, h)

uscaledns_add-subns :
    (t1 t2 : UScaledNs) → InWidth t1 → InWidth t2 → (uscaledns_add t1 t2).subns < 65536
unfolding uscaledns_add
uscaledns_add-subns t1 t2 v1 v2 = ground arith

sum_lem :
    (c t u d : ℕ) (b : Bool)
    → b ≡ false
    → c + (t - u) < 2 ^ 64
    → u ≤ t
    → t < 2 ^ 96
    → d ≡ (t + 2 ^ 96 - u) % 2 ^ 96
    → (c + d + (if b then 65536 else 0)) % 2 ^ 96 % 2 ^ 64 ≡ c + (t - u)
sum_lem c t u d b e h k l m = rw e (omega (arith, h, k, l, m))

-- The correction that the follow-up carries.
correction_lem :
    (ts : UScaledNs) (md : MdSyncSend)
    → IsWhole md
    → IsLater ts md
    → uint64_uscaledns
        (uscaledns_add md.follow_up_correction_field (uscaledns_subtract ts md.upstream_tx_time))
      ≡ value md.follow_up_correction_field + (value ts - value md.upstream_tx_time)
correction_lem ts md w l =
    let c = md.follow_up_correction_field in
    let u = md.upstream_tx_time in
    let d = uscaledns_subtract ts u in
    let dw = uscaledns_subtract-InWidth ts u l.fits w.upstream in
    uint64-value (uscaledns_add c d) (uscaledns_add-subns c d w.correction dw)
    ∙ ap (λ (n : ℕ). n % 2 ^ 64) (value-uscaledns_add c d w.correction dw)
    ∙ sum_lem (value c) (value ts) (value u) (value d) (c.subns + d.subns == 0xffff) l.carries
        l.within l.later (omega arith) (value-uscaledns_subtract ts u l.fits w.upstream)

sync-InWidth :
    (sm : MdSyncSendSm) (md : MdSyncSend)
    → IsWhole md
    → sm.md_entity.sync_sequence_id < 65535
    → RoundTrip.InWidth (set_sync_two_step sm md).head
unfolding set_sync_two_step ptp_msg_header_template
sync-InWidth sm md w n = record {
  major_sdo_id_lt = omega arith;
  message_type_lt = omega arith;
  minor_version_ptp_lt = omega arith;
  version_ptp_lt = omega arith;
  message_length_lt = omega arith;
  flags_length = refl;
  correction_field_lt = omega arith;
  specific_length = refl;
  clock_length = w.clock_length;
  port_number_lt = w.port_lt;
  sequence_id_lt = omega (arith, n);
}

follow_up-InWidth :
    (sm : MdSyncSendSm) (md : MdSyncSend) (tx : PtpMsgSync)
    → IsWhole md
    → IsLater sm.sync_event_egress_timestamp md
    → tx.head.sequence_id < 65536
    → RoundTrip.InWidth (set_follow_up sm md tx).head
unfolding set_follow_up ptp_msg_header_template
follow_up-InWidth sm md tx w l n = record {
  major_sdo_id_lt = omega arith;
  message_type_lt = omega arith;
  minor_version_ptp_lt = omega arith;
  version_ptp_lt = omega arith;
  message_length_lt = omega arith;
  flags_length = refl;
  correction_field_lt = rw (correction_lem sm.sync_event_egress_timestamp md w l) l.within;
  specific_length = refl;
  clock_length = w.clock_length;
  port_number_lt = w.port_lt;
  sequence_id_lt = n;
}

follow_up-Fits :
    (sm : MdSyncSendSm) (md : MdSyncSend) (tx : PtpMsgSync)
    → IsWhole md
    → Fits
        (set_follow_up sm md tx).precise_origin_timestamp
        (set_follow_up sm md tx).follow_up_information_tlv
unfolding set_follow_up
follow_up-Fits sm md tx w = record {
  seconds_msb_lt = w.seconds_msb_lt;
  seconds_lsb_lt = w.seconds_lsb_lt;
  nanoseconds_lt = w.nanoseconds_lt;
  tlv_type_lt = omega arith;
  length_field_lt = omega arith;
  id_length = refl;
  sub_type_length = refl;
  offset_lt = omega arith;
  indicator_lt = w.indicator_lt;
  phase_change = w.phase_change;
  freq_change_lt = omega arith;
}

-- The two messages carry the sequence id `n` and the time of `md`, and the follow-up corrects it by the
-- time since the upstream time.
pub record Carries (n : ℕ) (ts : UScaledNs) (md : MdSyncSend) (m : PtpMsgSync) (f : PtpMsgFollowUp)
    : Type 0 where
  pub sync_sequence : m.head.sequence_id ≡ n
  pub sync_correction : m.head.correction_field ≡ 0
  pub follow_up_sequence : f.head.sequence_id ≡ n
  pub origin : f.precise_origin_timestamp ≡ md.precise_origin_timestamp
  pub correction :
      f.head.correction_field
      ≡ value md.follow_up_correction_field + (value ts - value md.upstream_tx_time)

carried :
    (ts : UScaledNs) (md : MdSyncSend) (sm : MdSyncSendSm)
    → IsWhole md
    → IsLater ts md
    → Carries sm.md_entity.sync_sequence_id ts md (set_sync_two_step sm md) (
        set_follow_up (record sm { sync_event_egress_timestamp = ts }) md (set_sync_two_step sm md))
unfolding set_follow_up set_sync_two_step ptp_msg_header_template
carried ts md sm w l = record {
  sync_sequence = refl;
  sync_correction = refl;
  follow_up_sequence = refl;
  origin = refl;
  correction = correction_lem ts md w l;
}

-- A ready machine answers an MDSync and then the time stamp of its message with a sync message and a
-- follow-up. Read by the neighbour, they carry the sequence id of the machine and the origin time of
-- the MDSync, and the correction is that of the MDSync and the time that passed here. The sequence id is
-- not the last one, the fields fit their types, the sub-nanoseconds carry as they should and the
-- correction fits 64 bits.
pub handle_all-Carries :
    (random random' : ℕ) (md : MdSyncSend) (stamp : TsuTimestamp) (sm : MdSyncSendSm)
    → IsReady sm
    → sm.md_entity.sync_sequence_id < 65535
    → (stamp.sequence_id == sm.md_entity.sync_sequence_id) ≡ true
    → IsWhole md
    → IsLater stamp.ts md
    → (s : MdSyncSendSm) × (fr : PtpFrameHeader) × (fu : PtpFrameFollowUp) × (handle_all
          (recv_md_sync random md ∷ txts random' stamp ∷ [])
          sm
        ≡ done s (sync sm.port.this_port fr ∷ follow_up sm.port.this_port fu ∷ []))
      × IsReady s
      × Carries sm.md_entity.sync_sequence_id stamp.ts md (recv_sync fr) (recv_follow_up fu)
unfolding handle_all handle recv_sync
handle_all-Carries random random' md stamp sm k n e w l =
    let sent = recv_md_sync-Sends random md sm k in
    let next : (stamp.sequence_id + 1 == u16 (sm.md_entity.sync_sequence_id + 1)) ≡ true =
      ground (arith, n, e) in
    let answered = txts-Follows random' stamp md sm k next in
    let m = set_sync_two_step sm md in
    let f = set_follow_up (record sm { sync_event_egress_timestamp = stamp.ts }) md m in
    (
      followed stamp md sm,
      set_ptp_frame_header m.head,
      frame_follow_up f,
      rw (handle_all, handle, sent) (rw (and_then, handle_all, handle, answered) refl),
      record {
        resting = inr (refl, refl);
        no_stamp = k.no_stamp;
        no_asymmetry = k.no_asymmetry;
        running = k.running;
      },
      rw
          (
            header-roundtrip m.head (sync-InWidth sm md w n),
            follow_up-roundtrip f
                (follow_up-InWidth (record sm { sync_event_egress_timestamp = stamp.ts }) md m w l
                  (sync-InWidth sm md w n).sequence_id_lt)
                (follow_up-Fits (record sm { sync_event_egress_timestamp = stamp.ts }) md m w),
          )
          (carried stamp.ts md sm w l),
    )
