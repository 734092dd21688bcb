-- ===== src/Sync/Link.antt =====
-- The time of an MDSync on its way over a link: the machine that sends it, the two frames, and the
-- machine that receives them (time_sync/md_sync_send_sm.c, md_sync_receive_sm.c, eth_frame.c).
use ziggo_caa_s_switch.Prelude.{
  ℕ, ◌+◌, ◌-◌, ◌%◌, ◌^◌, ◌<◌, ◌≤◌, ◌≡◌, ◌∙◌, true, false, [], ◌∷◌, ◌==◌, arith, nonneg,
}
use ziggo_caa_s_switch.Ptp.ScaledNs.{UScaledNs, uscaledns_add, uscaledns_compare, uscaledns_uint64}
use ziggo_caa_s_switch.Ptp.ScaledNs.Value.{
  InWidth, value, value-uscaledns_add, value-uscaledns_subtract,
}
use ziggo_caa_s_switch.Frame.{PtpFrameHeader}
use ziggo_caa_s_switch.Pdelay.Messages.{TsuTimestamp}
use ziggo_caa_s_switch.Sync.Messages.{
  PtpMsgSync, PtpMsgFollowUp, PtpFrameFollowUp, recv_sync, recv_follow_up,
}
use ziggo_caa_s_switch.Sync.Send.{MdSyncSend, MdSyncSendSm, set_sync_two_step}
use ziggo_caa_s_switch.Sync.Send as Send
use ziggo_caa_s_switch.Sync.Send.Sending as Sending
use ziggo_caa_s_switch.Sync.Send.Events as SendEvents
use ziggo_caa_s_switch.Sync.Send.Following.{IsWhole, IsLater, Carries, handle_all-Carries}
use ziggo_caa_s_switch.Sync.Receive.{MdSyncReceive, MdSyncReceiveSm, done, set_md_sync_receive_mdsr}
use ziggo_caa_s_switch.Sync.Receive.Events as ReceiveEvents
use ziggo_caa_s_switch.Sync.Receive.Receiving.{IsReady, second, relayed, handle_all-Relays}

-- The correction that leaves the sender.
abbrev pub carried_correction : UScaledNs → MdSyncSend → ℕ
carried_correction ts md =
    value md.follow_up_correction_field + (value ts - value md.upstream_tx_time)

-- What the receiver hands on: the origin time, the correction, and the time at which the message left
-- the sender by the receiver's clock.
pub record Relays (correction : ℕ) (ingress delay : UScaledNs) (md : MdSyncSend) (m : MdSyncReceive)
    : Type 0 where
  pub origin : m.precise_origin_timestamp ≡ md.precise_origin_timestamp
  pub correction_eq : value m.follow_up_correction_field ≡ correction
  pub upstream : value m.upstream_tx_time ≡ value ingress - value delay

uscaledns_uint64-InWidth : (c : ℕ) → c < 2 ^ 64 → InWidth (uscaledns_uint64 c)
unfolding uscaledns_uint64
uscaledns_uint64-InWidth c h = record {
  subns_lt = omega arith;
  nsec_lt = omega arith;
  msb_lt = omega arith;
}

value-uscaledns_uint64 : (c : ℕ) → value (uscaledns_uint64 c) ≡ c
unfolding uscaledns_uint64
value-uscaledns_uint64 c = omega arith

-- The sync message adds nothing to the correction of its follow-up.
correction_sum :
    (c : ℕ)
    → c < 2 ^ 64
    → (c % 65536 == 0xffff) ≡ false
    → value (uscaledns_add (uscaledns_uint64 0) (uscaledns_uint64 c)) ≡ c
unfolding uscaledns_uint64
correction_sum c h e =
    let e' : ((uscaledns_uint64 0).subns + (uscaledns_uint64 c).subns == 0xffff) ≡ false =
      ground (arith, e) in
    value-uscaledns_add (uscaledns_uint64 0) (uscaledns_uint64 c)
      (uscaledns_uint64-InWidth 0 (omega arith)) (uscaledns_uint64-InWidth c h)
    ∙ rw e' (omega (arith, h))

-- The receiver's message, from messages that carry what the sender's do.
relayed-Relays :
    (n : ℕ) (ts : UScaledNs) (md : MdSyncSend) (s : PtpMsgSync) (f : PtpMsgFollowUp)
    (sm : MdSyncReceiveSm)
    → Carries n ts md s f
    → carried_correction ts md < 2 ^ 64
    → (carried_correction ts md % 65536 == 0xffff) ≡ false
    → InWidth sm.sync_event_ingress_timestamp
    → InWidth sm.port.mean_link_delay
    → value sm.port.mean_link_delay ≤ value sm.sync_event_ingress_timestamp
    → Relays
        (carried_correction ts md)
        sm.sync_event_ingress_timestamp
        sm.port.mean_link_delay
        md
        (set_md_sync_receive_mdsr sm s f)
unfolding set_md_sync_receive_mdsr
relayed-Relays n ts md s f sm c h e v w le = record {
  origin = c.origin;
  correction_eq =
      rw (c.sync_correction, c.correction) (correction_sum (carried_correction ts md) h e);
  upstream =
      value-uscaledns_subtract sm.sync_event_ingress_timestamp sm.port.mean_link_delay v w
      ∙ omega (arith, v, w, le);
}

-- The clocks of the receiver: the message came at `ingress`, which is no earlier than the delay, and the
-- time-out of a second from `ts` on is not past.
pub record IsTimely (ts ingress delay : UScaledNs) : Type 0 where
  pub ingress_fits : InWidth ingress
  pub delay_fits : InWidth delay
  pub after : value delay ≤ value ingress
  pub in_time : nonneg (uscaledns_compare ts (uscaledns_add ts second)) ≡ false

same_sequence :
    (n : ℕ) (ts : UScaledNs) (md : MdSyncSend) (s : PtpMsgSync) (f : PtpMsgFollowUp)
    → Carries n ts md s f
    → (f.head.sequence_id == s.head.sequence_id) ≡ true
same_sequence n ts md s f c = rw (c.sync_sequence, c.follow_up_sequence) (ground arith)

-- A ready sender answers an MDSync and the time stamp of its message with two frames, and a ready receiver
-- that reads them hands on one message: it has the origin time of the MDSync, the correction of the
-- MDSync and the time that passed in the sender, and the time at which the frame left by the
-- receiver's clock. The sequence id is not the last one, the fields fit their types, the
-- sub-nanoseconds carry as they should in both additions, and the clocks are timely.
pub link-Relays :
    (random random' : ℕ) (md : MdSyncSend) (stamp : TsuTimestamp) (sm : MdSyncSendSm)
    (ts ts' : UScaledNs) (arrival : TsuTimestamp) (rm : MdSyncReceiveSm)
    → Sending.IsReady sm
    → sm.md_entity.sync_sequence_id < 65535
    → (stamp.sequence_id == sm.md_entity.sync_sequence_id) ≡ true
    → IsWhole md
    → IsLater stamp.ts md
    → IsReady rm
    → IsTimely ts arrival.ts rm.port.mean_link_delay
    → (carried_correction stamp.ts md % 65536 == 0xffff) ≡ false
    → (s : MdSyncSendSm) × (fr : PtpFrameHeader) × (fu : PtpFrameFollowUp) × (r : MdSyncReceiveSm)
      × (m : MdSyncReceive) × (SendEvents.handle_all
            (SendEvents.recv_md_sync random md ∷ SendEvents.txts random' stamp ∷ [])
            sm
          ≡ Send.done s (Send.sync sm.port.this_port fr ∷ Send.follow_up sm.port.this_port fu ∷ []))
      × (ReceiveEvents.handle_all
            (ReceiveEvents.recv_sync ts arrival (recv_sync fr)
              ∷ ReceiveEvents.recv_follow_up ts' (recv_follow_up fu)
              ∷ [])
            rm
          ≡ done r (m ∷ []))
      × Relays (carried_correction stamp.ts md) arrival.ts rm.port.mean_link_delay md m
link-Relays random random' md stamp sm ts ts' arrival rm k n e w l k' t c =
    let (s, fr, fu, sent, ready, carries) =
      handle_all-Carries random random' md stamp sm k n e w l in
    let a = recv_sync fr in
    let b = recv_follow_up fu in
    (
      s,
      fr,
      fu,
      relayed ts arrival a b rm,
      set_md_sync_receive_mdsr (record rm { sync_event_ingress_timestamp = arrival.ts }) a b,
      sent,
      handle_all-Relays ts ts' arrival a b rm k' t.in_time
          (same_sequence sm.md_entity.sync_sequence_id stamp.ts md a b carries),
      relayed-Relays sm.md_entity.sync_sequence_id stamp.ts md a b
          (record rm { sync_event_ingress_timestamp = arrival.ts }) carries l.within c
          t.ingress_fits t.delay_fits t.after,
    )
