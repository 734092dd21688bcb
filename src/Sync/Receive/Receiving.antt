-- ===== src/Sync/Receive/Receiving.antt =====
-- What the MDSyncReceive machine makes of a sync message and its follow-up
-- (time_sync/md_sync_receive_sm.c).
use ziggo_caa_s_switch.Prelude.{
  ◌≡◌, refl, true, false, [], ◌∷◌, ◌==◌, ◌⊎◌, inl, inr, arith, subst, some, nonneg,
}
use ziggo_caa_s_switch.Ptp.ScaledNs.{UScaledNs, uscaledns_add, uscaledns_compare}
use ziggo_caa_s_switch.Pdelay.Messages.{TsuTimestamp}
use ziggo_caa_s_switch.Sync.Messages.{PtpMsgSync, PtpMsgFollowUp}
use ziggo_caa_s_switch.Sync.Receive.{
  State, discard, waiting_for_follow_up, waiting_for_sync, MdSyncReceiveSm, done,
  set_md_sync_receive_mdsr, all_state_transition, discard_state_transition,
  waiting_for_follow_up_action, is_followed_up, waiting_for_follow_up_state_transition,
  waiting_for_sync_action, waiting_for_sync_state_transition, run_state, round, run_loop,
  md_sync_receive_sm_run, md_sync_receive_sm_recv_sync, md_sync_receive_sm_recv_follow_up,
}
use ziggo_caa_s_switch.Sync.Receive.Events.{recv_sync, recv_follow_up, handle, and_then, handle_all}

abbrev pub second : UScaledNs
second = record { subns = 0; nsec = 1000000000; nsec_msb = 0 }

-- The machine rests where it waits for a sync message, on a port that runs and measures no asymmetry.
pub record IsReady (sm : MdSyncReceiveSm) : Type 0 where
  pub resting :
      ((sm.state ≡ discard) × (sm.last_state ≡ discard))
      ⊎ ((sm.state ≡ waiting_for_sync) × (sm.last_state ≡ waiting_for_sync))
  pub no_follow_up : sm.rcvd_follow_up ≡ false
  pub no_asymmetry : sm.port.asymmetry_measurement_mode ≡ false
  pub operational : sm.port.port_oper ≡ true
  pub enabled : sm.port.ptp_port_enabled ≡ true
  pub capable : sm.port.as_capable ≡ true
  pub not_begin : sm.instance_global.begin ≡ false
  pub instance_enabled : sm.instance_global.instance_enable ≡ true

abbrev literal : State → MdSyncReceiveSm → MdSyncReceiveSm
literal s sm = record sm {
  state = s;
  last_state = s;
  rcvd_follow_up = false;
  port = record sm.port {
    port_oper = true;
    ptp_port_enabled = true;
    as_capable = true;
    asymmetry_measurement_mode = false;
  };
  instance_global = record sm.instance_global { begin = false; instance_enable = true };
}

-- The machine behind the sync message, and behind the follow-up.
abbrev synced : UScaledNs → TsuTimestamp → PtpMsgSync → MdSyncReceiveSm → MdSyncReceiveSm
synced ts stamp s sm = record sm {
  state = waiting_for_follow_up;
  last_state = waiting_for_follow_up;
  rcvd_sync = false;
  rcvd_sync_ptr = some s;
  sync_event_ingress_timestamp = stamp.ts;
  upstream_sync_interval = second;
  follow_up_receipt_timeout_time = uscaledns_add ts second;
}

abbrev pub relayed :
    UScaledNs → TsuTimestamp → PtpMsgSync → PtpMsgFollowUp → MdSyncReceiveSm → MdSyncReceiveSm
relayed ts stamp s f sm = record (synced ts stamp s sm) {
  state = waiting_for_sync;
  last_state = waiting_for_sync;
  rcvd_follow_up = false;
  rcvd_follow_up_ptr = some f;
  tx_md_sync_receive_ptr_mdsr =
      some (set_md_sync_receive_mdsr (record sm { sync_event_ingress_timestamp = stamp.ts }) s f);
}

recv_sync-literal :
    (ts : UScaledNs) (stamp : TsuTimestamp) (s : PtpMsgSync) (st : State) (sm : MdSyncReceiveSm)
    → (st ≡ discard) ⊎ (st ≡ waiting_for_sync)
    → nonneg (uscaledns_compare ts (uscaledns_add ts second)) ≡ false
    → md_sync_receive_sm_recv_sync ts stamp s (literal st sm)
      ≡ done (synced ts stamp s (literal st sm)) []
unfolding md_sync_receive_sm_recv_sync md_sync_receive_sm_run all_state_transition run_loop round
    run_state discard_state_transition waiting_for_follow_up_action is_followed_up
    waiting_for_follow_up_state_transition waiting_for_sync_state_transition
recv_sync-literal ts stamp s st sm (inl e) h =
    rw
      (
        e, md_sync_receive_sm_recv_sync, md_sync_receive_sm_run, run_loop, round, run_state,
        waiting_for_follow_up_state_transition, h,
      )
      refl
recv_sync-literal ts stamp s st sm (inr e) h =
    rw
      (
        e, md_sync_receive_sm_recv_sync, md_sync_receive_sm_run, run_loop, round, run_state,
        waiting_for_follow_up_state_transition, h,
      )
      refl

recv_follow_up-literal :
    (ts ts' : UScaledNs) (stamp : TsuTimestamp) (s : PtpMsgSync) (f : PtpMsgFollowUp) (st : State)
    (sm : MdSyncReceiveSm)
    → (f.head.sequence_id == s.head.sequence_id) ≡ true
    → md_sync_receive_sm_recv_follow_up ts' f (synced ts stamp s (literal st sm))
      ≡ done (relayed ts stamp s f (literal st sm)) (
          set_md_sync_receive_mdsr (record sm { sync_event_ingress_timestamp = stamp.ts }) s f ∷ [])
unfolding md_sync_receive_sm_recv_follow_up md_sync_receive_sm_run all_state_transition run_loop
    round run_state is_followed_up waiting_for_follow_up_state_transition waiting_for_sync_action
    waiting_for_sync_state_transition set_md_sync_receive_mdsr
recv_follow_up-literal ts ts' stamp s f st sm e =
    rw
      (
        md_sync_receive_sm_recv_follow_up, md_sync_receive_sm_run, run_loop, round, run_state,
        waiting_for_follow_up_state_transition, is_followed_up, e,
      )
      refl

IsReady-literal :
    (sm : MdSyncReceiveSm)
    → IsReady sm
    → (st : State) × ((st ≡ discard) ⊎ (st ≡ waiting_for_sync)) × (literal st sm ≡ sm)
IsReady-literal sm k = elim k.resting [
  | inl (e, e') ↦ (discard, inl refl, ground (arith, k))
  | inr (e, e') ↦ (waiting_for_sync, inr refl, ground (arith, k))
]

-- A sync message and the follow-up with its sequence id make one message for the port's machine,
-- whatever the time between them.
pub handle_all-Relays :
    (ts ts' : UScaledNs) (stamp : TsuTimestamp) (s : PtpMsgSync) (f : PtpMsgFollowUp)
    (sm : MdSyncReceiveSm)
    → IsReady sm
    → nonneg (uscaledns_compare ts (uscaledns_add ts second)) ≡ false
    → (f.head.sequence_id == s.head.sequence_id) ≡ true
    → handle_all (recv_sync ts stamp s ∷ recv_follow_up ts' f ∷ []) sm
      ≡ done (relayed ts stamp s f sm) (
          set_md_sync_receive_mdsr (record sm { sync_event_ingress_timestamp = stamp.ts }) s f ∷ [])
unfolding handle_all handle set_md_sync_receive_mdsr
handle_all-Relays ts ts' stamp s f sm k h e =
    let (st, w, l) = IsReady-literal sm k in
    subst
      (λ x.
        handle_all (recv_sync ts stamp s ∷ recv_follow_up ts' f ∷ []) x
        ≡ done (relayed ts stamp s f x) (
            set_md_sync_receive_mdsr (record x { sync_event_ingress_timestamp = stamp.ts }) s f
            ∷ []))
      l
      (rw (handle_all, handle, recv_sync-literal ts stamp s st sm w h)
        (rw (and_then, handle_all, handle, recv_follow_up-literal ts ts' stamp s f st sm e) refl))
