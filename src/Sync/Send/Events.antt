-- ===== src/Sync/Send/Events.antt =====
-- The MDSyncSend machine in its environment: the calls of the main loop and of PortSyncSyncSend, one
-- after another (time_sync/md_sync_send_sm.c, time_sync_main_loop.c).
use ziggo_caa_s_switch.Prelude.{ℕ, List, [], ◌∷◌, ◌++◌}
use ziggo_caa_s_switch.Ptp.Globals.{PerPortGlobal, PerPtpInstanceGlobal, MdEntityGlobal}
use ziggo_caa_s_switch.Pdelay.Messages.{TsuTimestamp}
use ziggo_caa_s_switch.Sync.Send.{
  MdSyncSend, MdSyncSendSm, Outcome, done, undefined, out_of_fuel, md_sync_send_sm_run,
  md_sync_send_sm_recv_md_sync, md_sync_send_sm_txts,
}

-- A run, an MDSync, the time stamp of a sent frame, or a write to what the machines share.
pub data Event : Type 0 where
  run : ℕ → Event
  recv_md_sync : ℕ → MdSyncSend → Event
  txts : ℕ → TsuTimestamp → Event
  shared : PerPortGlobal → PerPtpInstanceGlobal → MdEntityGlobal → Event

unfoldable pub handle : Event → MdSyncSendSm → Outcome
handle (run random) sm = md_sync_send_sm_run random sm
handle (recv_md_sync random md) sm = md_sync_send_sm_recv_md_sync random md sm
handle (txts random stamp) sm = md_sync_send_sm_txts random stamp sm
handle (shared p g m) sm = done (record sm { port = p; instance_global = g; md_entity = m }) []

-- The next calls, on the machine that the last one leaves; the frames follow one another.
abbrev pub and_then : (MdSyncSendSm → Outcome) → Outcome → Outcome
and_then f (done sm sent) = elim (f sm) [
  | done s more ↦ done s (sent ++ more)
  | undefined ↦ undefined
  | out_of_fuel ↦ out_of_fuel
]
and_then f undefined = undefined
and_then f out_of_fuel = out_of_fuel

unfoldable pub handle_all : List Event → MdSyncSendSm → Outcome
handle_all [] sm = done sm []
handle_all (e ∷ es) sm = and_then (handle_all es) (handle e sm)
