-- ===== src/Sync/Send/Sending.antt =====
-- The MDSyncSend machine sends a sync message for each MDSync that finds it ready
-- (time_sync/md_sync_send_sm.c).
use ziggo_caa_s_switch.Prelude.{
  ℕ, ◌+◌, ◌≡◌, refl, Bool, true, false, [], ◌∷◌, ◌==◌, ◌⊎◌, inl, inr, arith, subst, some, u16,
}
use ziggo_caa_s_switch.Ptp.Globals.{PerPortGlobal, PerPtpInstanceGlobal}
use ziggo_caa_s_switch.Frame.{set_ptp_frame_header}
use ziggo_caa_s_switch.Pdelay.Messages.{TsuTimestamp}
use ziggo_caa_s_switch.Sync.Messages.{frame_follow_up}
use ziggo_caa_s_switch.Sync.Send.{
  State, initializing, send_sync, send_follow_up, MdSyncSend, MdSyncSendSm, sync, follow_up, done,
  set_sync_two_step, set_follow_up, all_state_transition, initializing_state_transition,
  send_sync_action, send_sync_state_transition, send_follow_up_action,
  send_follow_up_state_transition, run_state, round, run_loop, md_sync_send_sm_run,
  md_sync_send_sm_recv_md_sync, md_sync_send_sm_txts,
}

-- The instance runs, and the port may send.
pub record IsRunning (p : PerPortGlobal) (g : PerPtpInstanceGlobal) : Type 0 where
  pub operational : p.port_oper ≡ true
  pub enabled : p.ptp_port_enabled ≡ true
  pub capable : p.as_capable ≡ true
  pub not_begin : g.begin ≡ false
  pub instance_enabled : g.instance_enable ≡ true

-- The machine rests where an MDSync makes it send, on a port that measures no asymmetry.
pub record IsReady (sm : MdSyncSendSm) : Type 0 where
  pub resting :
      ((sm.state ≡ initializing) × (sm.last_state ≡ initializing))
      ⊎ ((sm.state ≡ send_follow_up) × (sm.last_state ≡ send_follow_up))
  pub no_stamp : sm.rcvd_md_timestamp_receive_mdss ≡ false
  pub no_asymmetry : sm.port.asymmetry_measurement_mode ≡ false
  pub running : IsRunning sm.port sm.instance_global

-- A state of the machine on a port that runs, in literal fields.
abbrev pub literal : State → Bool → Bool → MdSyncSendSm → MdSyncSendSm
literal s md asymmetry sm = record sm {
  state = s;
  last_state = s;
  rcvd_md_sync_mdss = md;
  rcvd_md_timestamp_receive_mdss = false;
  port = record sm.port {
    port_oper = true;
    ptp_port_enabled = true;
    as_capable = true;
    asymmetry_measurement_mode = asymmetry;
  };
  instance_global = record sm.instance_global { begin = false; instance_enable = true };
}

-- The machine has sent its frame for `md`.
abbrev pub sending : MdSyncSend → MdSyncSendSm → MdSyncSendSm
sending md sm = record sm {
  state = send_sync;
  last_state = send_sync;
  rcvd_md_sync_mdss = false;
  rcvd_md_sync_ptr = some md;
  tx_sync_ptr = some (set_sync_two_step sm md);
  md_entity = record sm.md_entity { sync_sequence_id = u16 (sm.md_entity.sync_sequence_id + 1) };
}

-- It has sent the follow-up too.
abbrev pub followed : TsuTimestamp → MdSyncSend → MdSyncSendSm → MdSyncSendSm
followed stamp md sm = record (sending md sm) {
  state = send_follow_up;
  last_state = send_follow_up;
  rcvd_md_timestamp_receive_ptr = some stamp;
  sync_event_egress_timestamp = stamp.ts;
  tx_follow_up_ptr = some (
      set_follow_up (record sm { sync_event_egress_timestamp = stamp.ts }) md
        (set_sync_two_step sm md));
}

recv_md_sync-literal :
    (random : ℕ) (s : State) (b : Bool) (md : MdSyncSend) (sm : MdSyncSendSm)
    → (s ≡ initializing) ⊎ (s ≡ send_follow_up)
    → md_sync_send_sm_recv_md_sync random md (literal s b false sm)
      ≡ done
          (sending md (literal s b false sm))
          (sync sm.port.this_port (set_ptp_frame_header (set_sync_two_step sm md).head) ∷ [])
unfolding md_sync_send_sm_recv_md_sync md_sync_send_sm_run all_state_transition run_loop round
    run_state initializing_state_transition send_sync_action send_sync_state_transition
    send_follow_up_state_transition set_sync_two_step
recv_md_sync-literal random s b md sm (inl e) = rw e refl
recv_md_sync-literal random s b md sm (inr e) = rw e refl

txts-literal :
    (random : ℕ) (s : State) (b : Bool) (stamp : TsuTimestamp) (md : MdSyncSend) (sm : MdSyncSendSm)
    → (stamp.sequence_id + 1 == u16 (sm.md_entity.sync_sequence_id + 1)) ≡ true
    → md_sync_send_sm_txts random stamp (sending md (literal s b false sm))
      ≡ done (followed stamp md (literal s b false sm)) (
          follow_up sm.port.this_port (
            frame_follow_up (
              set_follow_up
                (record sm { sync_event_egress_timestamp = stamp.ts })
                md
                (set_sync_two_step sm md)))
          ∷ [])
unfolding md_sync_send_sm_txts md_sync_send_sm_run all_state_transition run_loop round run_state
    send_sync_state_transition send_follow_up_action send_follow_up_state_transition
    set_sync_two_step set_follow_up
txts-literal random s b stamp md sm e = rw (md_sync_send_sm_txts, e) refl

IsReady-literal :
    (sm : MdSyncSendSm)
    → IsReady sm
    → (s : State) × ((s ≡ initializing) ⊎ (s ≡ send_follow_up))
      × (literal s sm.rcvd_md_sync_mdss false sm ≡ sm)
IsReady-literal sm k = elim k.resting [
  | inl (e, e') ↦ (initializing, inl refl, ground (arith, k, k.running))
  | inr (e, e') ↦ (send_follow_up, inr refl, ground (arith, k, k.running))
]

-- A ready machine sends a sync message with its sequence id, and counts on.
pub recv_md_sync-Sends :
    (random : ℕ) (md : MdSyncSend) (sm : MdSyncSendSm)
    → IsReady sm
    → md_sync_send_sm_recv_md_sync random md sm
      ≡ done
          (sending md sm)
          (sync sm.port.this_port (set_ptp_frame_header (set_sync_two_step sm md).head) ∷ [])
unfolding set_sync_two_step
recv_md_sync-Sends random md sm k =
    let (s, h, l) = IsReady-literal sm k in
    subst
      (λ x.
        md_sync_send_sm_recv_md_sync random md x
        ≡ done (sending md x)
            (sync x.port.this_port (set_ptp_frame_header (set_sync_two_step x md).head) ∷ []))
      l (recv_md_sync-literal random s sm.rcvd_md_sync_mdss md sm h)

-- The time stamp of that message makes it send the follow-up.
pub txts-Follows :
    (random : ℕ) (stamp : TsuTimestamp) (md : MdSyncSend) (sm : MdSyncSendSm)
    → IsReady sm
    → (stamp.sequence_id + 1 == u16 (sm.md_entity.sync_sequence_id + 1)) ≡ true
    → md_sync_send_sm_txts random stamp (sending md sm)
      ≡ done (followed stamp md sm) (
          follow_up sm.port.this_port (
            frame_follow_up (
              set_follow_up
                (record sm { sync_event_egress_timestamp = stamp.ts })
                md
                (set_sync_two_step sm md)))
          ∷ [])
unfolding set_sync_two_step set_follow_up
txts-Follows random stamp md sm k e =
    let (s, h, l) = IsReady-literal sm k in
    subst
      (λ x.
        md_sync_send_sm_txts random stamp (sending md x)
        ≡ done (followed stamp md x) (
            follow_up x.port.this_port (
              frame_follow_up (
                set_follow_up (record x { sync_event_egress_timestamp = stamp.ts }) md
                  (set_sync_two_step x md)))
            ∷ []))
      l (txts-literal random s sm.rcvd_md_sync_mdss stamp md sm e)
