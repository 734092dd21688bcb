-- ===== src/Sync/Receive/Events.antt =====
-- The MDSyncReceive machine in its environment: the calls of the main loop, one after another
-- (time_sync/md_sync_receive_sm.c, time_sync_main_loop.c).
use ziggo_caa_s_switch.Prelude.{List, [], ◌∷◌, ◌++◌}
use ziggo_caa_s_switch.Ptp.ScaledNs.{UScaledNs}
use ziggo_caa_s_switch.Ptp.Globals.{PerPortGlobal, PerPtpInstanceGlobal}
use ziggo_caa_s_switch.Pdelay.Messages.{TsuTimestamp}
use ziggo_caa_s_switch.Sync.Messages.{PtpMsgSync, PtpMsgFollowUp}
use ziggo_caa_s_switch.Sync.Receive.{
  MdSyncReceiveSm, Outcome, done, undefined, out_of_fuel, md_sync_receive_sm_run,
  md_sync_receive_sm_recv_sync, md_sync_receive_sm_recv_follow_up,
}

-- A run, a sync message with its time stamp, a follow-up, or a write to what the machines share.
pub data Event : Type 0 where
  run : UScaledNs → Event
  recv_sync : UScaledNs → TsuTimestamp → PtpMsgSync → Event
  recv_follow_up : UScaledNs → PtpMsgFollowUp → Event
  shared : PerPortGlobal → PerPtpInstanceGlobal → Event

unfoldable pub handle : Event → MdSyncReceiveSm → Outcome
handle (run ts) sm = md_sync_receive_sm_run ts sm
handle (recv_sync ts stamp s) sm = md_sync_receive_sm_recv_sync ts stamp s sm
handle (recv_follow_up ts f) sm = md_sync_receive_sm_recv_follow_up ts f sm
handle (shared p g) sm = done (record sm { port = p; instance_global = g }) []

-- The next calls, on the machine that the last one leaves; the messages follow one another.
abbrev pub and_then : (MdSyncReceiveSm → Outcome) → Outcome → Outcome
and_then f (done sm sent) = elim (f sm) [
  | done s more ↦ done s (sent ++ more)
  | undefined ↦ undefined
  | out_of_fuel ↦ out_of_fuel
]
and_then f undefined = undefined
and_then f out_of_fuel = out_of_fuel

unfoldable pub handle_all : List Event → MdSyncReceiveSm → Outcome
handle_all [] sm = done sm []
handle_all (e ∷ es) sm = and_then (handle_all es) (handle e sm)
