-- ===== src/Bmca/AnnounceInfo/Ending.antt =====
-- The loop of `port_announce_information_sm_run` ends, with no undefined behaviour on the way,
-- where the messages that the machine is given are well formed.
use ziggo_caa_s_switch.Prelude.{◌≡◌, inl, inr, refl, ◌<◌, false, arith, Bool-cases}
use ziggo_caa_s_switch.Ptp.ScaledNs.{UScaledNs}
use ziggo_caa_s_switch.Bmca.AnnounceInfo.{
  State, before_init, init, disabled_state, aged_state, update, current, receive,
  inferior_master_or_other_port, repeated_master_port, superior_master_port, PtpMsgAnnounce,
  PortAnnounceInformationSm,
}
use ziggo_caa_s_switch.Bmca.AnnounceInfo.Machine.{
  run_loop, run_fuel, all_state_transition, forced_disabled, go, init_port_announce_information_sm,
  port_announce_information_sm_run, port_announce_information_sm_recv_announce,
}
use ziggo_caa_s_switch.Bmca.AnnounceInfo.Safety.{IsWellFormed, IsReady}
use ziggo_caa_s_switch.Bmca.AnnounceInfo.Loops.{
  IsResting, Ends, loop_before_init, loop_init, loop_disabled, loop_aged, loop_current,
  loop_receive,
}

module _ (ts : UScaledNs) where
  loop-Ends :
      (sm : PortAnnounceInformationSm)
      → IsReady sm
      → IsResting sm.state
      → Ends (run_loop run_fuel ts sm)
  loop-Ends sm r rest = by_state sm.state refl rest
    where
      by_state : (s : State) → sm.state ≡ s → IsResting s → Ends (run_loop run_fuel ts sm)
      by_state before_init e h = loop_before_init ts sm r e
      by_state init e h = loop_init ts sm r e
      by_state disabled_state e h = loop_disabled ts 10 sm r e
      by_state aged_state e h = loop_aged ts sm r e
      by_state current e h = loop_current ts sm r e
      by_state receive e h = loop_receive ts 6 sm r e
      by_state update e h = absurd h
      by_state inferior_master_or_other_port e h = absurd h
      by_state repeated_master_port e h = absurd h
      by_state superior_master_port e h = absurd h

all_state_transition-IsReady :
    (sm : PortAnnounceInformationSm)
    → IsReady sm
    → IsResting sm.state
    → IsReady (go (all_state_transition sm) sm) × IsResting (all_state_transition sm)
unfolding all_state_transition
all_state_transition-IsReady sm r rest = elim (Bool-cases (forced_disabled sm)) [
  | inl e ↦ rw (e, all_state_transition) (ground arith)
  | inr e ↦ rw (e, all_state_transition) (r, rest)
]

-- A run from a ready machine at rest ends within its fuel, meets no undefined behaviour, and leaves
-- a ready machine at rest.
pub port_announce_information_sm_run-Ends :
    (ts : UScaledNs) (sm : PortAnnounceInformationSm)
    → IsReady sm
    → IsResting sm.state
    → Ends (port_announce_information_sm_run ts sm)
unfolding port_announce_information_sm_run
port_announce_information_sm_run-Ends ts sm r rest =
    let (r', rest') = all_state_transition-IsReady sm r rest in
    loop-Ends ts (go (all_state_transition sm) sm) r' rest'

-- Receiving any message whose interval is from 0 to 30 and whose path trace has at most 64 bytes, by a
-- machine at rest on a port whose initial interval is below 31 and whose number is below 5, ends within
-- the fuel, meets no undefined behaviour, and leaves a ready machine at rest.
pub port_announce_information_sm_recv_announce-Ends :
    (sm : PortAnnounceInformationSm) (ts : UScaledNs) (a : PtpMsgAnnounce)
    → IsWellFormed a
    → sm.port.initial_log_announce_interval < 31
    → sm.port.this_port < 5
    → IsResting sm.state
    → Ends (port_announce_information_sm_recv_announce sm ts a)
unfolding port_announce_information_sm_recv_announce
port_announce_information_sm_recv_announce-Ends sm ts a w h l rest =
    port_announce_information_sm_run-Ends ts _
      (record { pending = λ _. w; receiving = λ _. w; interval_lt = h; port_lt = l }) rest

-- The first run of a port with no message pending, whose initial interval is below 31 and whose number
-- is below 5, ends within its fuel, meets no undefined behaviour, and leaves a ready machine at rest.
pub init_port_announce_information_sm-Ends :
    (sm : PortAnnounceInformationSm)
    → sm.port.initial_log_announce_interval < 31
    → sm.port.this_port < 5
    → sm.port.rcvd_msg ≡ false
    → Ends (init_port_announce_information_sm sm)
unfolding init_port_announce_information_sm
init_port_announce_information_sm-Ends sm h l e =
    port_announce_information_sm_run-Ends _ _
      (record {
        pending = λ p. ground (arith, e, p);
        receiving = λ p. ground (arith, p);
        interval_lt = h;
        port_lt = l;
      })
      tt
