-- ===== src/Sync/Send/Wrapping.antt =====
-- The sequence id of the MDSyncSend machine past its end (time_sync/md_sync_send_sm.c).
use ziggo_caa_s_switch.Prelude.{
  ℕ, ◌+◌, ◌≡◌, refl, ap, Bool, true, false, List, [], ◌∷◌, ◌==◌, arith, subst, some, u16,
}
use ziggo_caa_s_switch.Frame.{set_ptp_frame_header}
use ziggo_caa_s_switch.Sync.Send.{
  send_sync, MdSyncSend, MdSyncSendSm, sync, Outcome, done, set_sync_two_step, all_state_transition,
  send_sync_state_transition, run_state, round, run_loop, md_sync_send_sm_run,
  md_sync_send_sm_recv_md_sync, md_sync_send_sm_txts,
}
use ziggo_caa_s_switch.Sync.Send.Sending.{IsRunning, IsReady, literal, sending, recv_md_sync-Sends}
use ziggo_caa_s_switch.Sync.Send.Events.{Event, run, recv_md_sync, txts, shared, handle, handle_all}

-- The machine waits for the time stamp of a frame, and its next sequence id is 0.
pub record IsStuck (sm : MdSyncSendSm) : Type 0 where
  pub waiting : sm.state ≡ send_sync
  pub waited : sm.last_state ≡ send_sync
  pub no_stamp : sm.rcvd_md_timestamp_receive_mdss ≡ false
  pub wrapped : sm.md_entity.sync_sequence_id ≡ 0
  pub running : IsRunning sm.port sm.instance_global

-- A write to the shared state leaves the port running and the sequence id at 0.
abbrev pub IsKeeping : Event → Type 0
IsKeeping (shared p g m) = IsRunning p g × (m.sync_sequence_id ≡ 0)
IsKeeping _ = Unit

abbrev pub AllKeep : List Event → Type 0
AllKeep [] = Unit
AllKeep (e ∷ es) = IsKeeping e × AllKeep es

-- The machine stays, and sends nothing.
abbrev Stays : Outcome → Type 0
Stays o = (s : MdSyncSendSm) × (o ≡ done s []) × IsStuck s

run-literal :
    (random : ℕ) (md a : Bool) (sm : MdSyncSendSm)
    → md_sync_send_sm_run random (literal send_sync md a sm) ≡ done (literal send_sync md a sm) []
unfolding md_sync_send_sm_run all_state_transition run_loop round run_state
    send_sync_state_transition
run-literal random true a sm = refl
run-literal random false a sm = refl

run-Stays : (random : ℕ) (sm : MdSyncSendSm) → IsStuck sm → Stays (md_sync_send_sm_run random sm)
run-Stays random sm k =
    let l : literal send_sync sm.rcvd_md_sync_mdss sm.port.asymmetry_measurement_mode sm ≡ sm =
      ground (arith, k, k.running) in
    (
      sm,
      subst (λ x. md_sync_send_sm_run random x ≡ done x []) l
          (run-literal random sm.rcvd_md_sync_mdss sm.port.asymmetry_measurement_mode sm),
      k,
    )

handle-Stays : (e : Event) (sm : MdSyncSendSm) → IsStuck sm → IsKeeping e → Stays (handle e sm)
unfolding handle md_sync_send_sm_recv_md_sync md_sync_send_sm_txts
handle-Stays (run random) sm k h = run-Stays random sm k
handle-Stays (recv_md_sync random md) sm k h =
    run-Stays random (record sm { rcvd_md_sync_mdss = true; rcvd_md_sync_ptr = some md })
      (record {
        waiting = k.waiting;
        waited = k.waited;
        no_stamp = k.no_stamp;
        wrapped = k.wrapped;
        running = k.running;
      })
handle-Stays (txts random stamp) sm k h =
    let e : (stamp.sequence_id + 1 == sm.md_entity.sync_sequence_id) ≡ false =
      ground (arith, k.wrapped) in
    (sm, rw (md_sync_send_sm_txts, k.waiting, e) refl, k)
handle-Stays (shared p g m) sm k h = (
  record sm { port = p; instance_global = g; md_entity = m },
  refl,
  record {
    waiting = k.waiting;
    waited = k.waited;
    no_stamp = k.no_stamp;
    wrapped = h.1;
    running = h.0;
  },
)

handle_all-Stays :
    (es : List Event) (sm : MdSyncSendSm) → IsStuck sm → AllKeep es → Stays (handle_all es sm)
unfolding handle_all
handle_all-Stays [] sm k h = (sm, refl, k)
handle_all-Stays (e ∷ es) sm k h =
    let (s, done_eq, k') = handle-Stays e sm k h.0 in
    let (t, done_eq', k'') = handle_all-Stays es s k' h.1 in
    (t, rw (handle_all, done_eq) (rw done_eq' refl), k'')

-- A ready machine whose sequence id is 65535 sends one more sync message for an MDSync. Whatever runs,
-- further MDSyncs and time stamps come after it, the one of that message among them, the machine
-- sends nothing more: it waits for a time stamp that it never takes. The writes to the shared state
-- leave the port running and the sequence id alone.
pub handle_all-IsSilent :
    (random : ℕ) (md : MdSyncSend) (es : List Event) (sm : MdSyncSendSm)
    → IsReady sm
    → sm.md_entity.sync_sequence_id ≡ 65535
    → AllKeep es
    → (s : MdSyncSendSm) × (handle_all (recv_md_sync random md ∷ es) sm
        ≡ done s
            (sync sm.port.this_port (set_ptp_frame_header (set_sync_two_step sm md).head) ∷ []))
      × IsStuck s
unfolding handle_all handle
handle_all-IsSilent random md es sm k last h =
    let sent = recv_md_sync-Sends random md sm k in
    let (s, done_eq, stuck) =
      handle_all-Stays es (sending md sm)
        (record {
          waiting = refl;
          waited = refl;
          no_stamp = k.no_stamp;
          wrapped = ap (λ (n : ℕ). u16 (n + 1)) last;
          running = k.running;
        })
        h in
    (s, rw (handle_all, handle, sent) (rw done_eq refl), stuck)
