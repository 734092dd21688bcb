-- ===== src/Bmca/AnnounceInfo/Machine.antt =====
-- The transitions and the loop of the PortAnnounceInformation machine
-- (time_sync/port_announce_information_sm.c).
use ziggo_caa_s_switch.Prelude.{
  ℕ, zero, suc, Bool, true, false, not, ◌&&◌, ◌||◌, Option, none, some, ◌==◌, if◌then◌else◌, nonneg,
}
use ziggo_caa_s_switch.Ptp.ScaledNs.{UScaledNs, uscaledns_compare}
use ziggo_caa_s_switch.Ptp.Globals.{
  received, disabled, BmcsRcvdInfo, repeated_master_info, superior_master_info,
  inferior_master_info, other_info,
}
use ziggo_caa_s_switch.Bmca.AnnounceInfo.{
  State, before_init, init, disabled_state, aged_state, update, current, receive,
  inferior_master_or_other_port, repeated_master_port, superior_master_port, PtpMsgAnnounce,
  PortAnnounceInformationSm, at_entry, is_selected, has_info, disabled_action, aged_action,
  update_action, receive_action, repeated_master_port_action, superior_master_port_action,
}

-- An enumerator is its number.
abbrev pub ordinal : State → ℕ
ordinal before_init = 0
ordinal init = 1
ordinal disabled_state = 2
ordinal aged_state = 3
ordinal update = 4
ordinal current = 5
ordinal receive = 6
ordinal inferior_master_or_other_port = 7
ordinal repeated_master_port = 8
ordinal superior_master_port = 9

unfoldable pub forced_disabled : PortAnnounceInformationSm → Bool
forced_disabled sm =
    let tricon = not port_oper || not ptp_port_enabled || not as_capable in
    ((tricon && not (has_info info_is disabled)) || begin || not instance_enable)
    && not external_port_configuration_enabled
  where
    open sm.port use {port_oper, ptp_port_enabled, as_capable, info_is}
    open sm.instance_global use {begin, instance_enable, external_port_configuration_enabled}

unfoldable pub all_state_transition : PortAnnounceInformationSm → State
all_state_transition sm = if forced_disabled sm then disabled_state else sm.state

unfoldable pub disabled_state_transition : PortAnnounceInformationSm → State
disabled_state_transition sm =
    if port_oper && ptp_port_enabled && as_capable
    then aged_state
    else (if rcvd_msg then disabled_state else sm.state)
  where
    open sm.port use {port_oper, ptp_port_enabled, as_capable, rcvd_msg}

unfoldable pub aged_state_transition : PortAnnounceInformationSm → Option State
aged_state_transition sm =
    at_entry sm.port.this_port (if is_selected sm && sm.port.updt_info then update else aged_state)

-- The announce receipt or the sync receipt has timed out.
unfoldable pub is_timed_out : PortAnnounceInformationSm → UScaledNs → Bool
is_timed_out sm ts =
    (has_info sm.port.info_is received
      && nonneg (uscaledns_compare ts sm.announce_receipt_timeout_time)
      && not sm.port.updt_info
      && not sm.port.rcvd_msg)
    || (nonneg (uscaledns_compare ts sm.instance_global.sync_receipt_timeout_time)
        && sm.instance_global.gm_present)

unfoldable pub current_state_transition : PortAnnounceInformationSm → UScaledNs → Option State
current_state_transition sm ts = at_entry sm.port.this_port (
    if is_selected sm && sm.port.updt_info
    then update
    else (if is_timed_out sm ts
        then aged_state
        else (if sm.port.rcvd_msg && not sm.port.updt_info then receive else current)))

by_rcvd_info : BmcsRcvdInfo → State
by_rcvd_info inferior_master_info = inferior_master_or_other_port
by_rcvd_info other_info = inferior_master_or_other_port
by_rcvd_info repeated_master_info = repeated_master_port
by_rcvd_info superior_master_info = superior_master_port

unfoldable pub receive_state_transition : PortAnnounceInformationSm → State
unfolding by_rcvd_info
receive_state_transition sm =
    if not sm.port.asymmetry_measurement_mode then by_rcvd_info sm.rcvd_info else receive

abbrev pub go : State → PortAnnounceInformationSm → PortAnnounceInformationSm
go s sm = record sm { state = s }

abbrev go_to : Option State → PortAnnounceInformationSm → Option PortAnnounceInformationSm
go_to none sm = none
go_to (some s) sm = some (go s sm)

-- `if (state_change) action(sm, ts); sm->state = transition(sm, ts)`, by the state.
run_state : State → Bool → UScaledNs → PortAnnounceInformationSm → Option PortAnnounceInformationSm
unfolding disabled_state_transition aged_state_transition current_state_transition
    receive_state_transition disabled_action aged_action update_action
run_state before_init change ts sm = some sm
run_state init change ts sm = some (go disabled_state sm)
run_state disabled_state change ts sm = elim (if change then disabled_action sm ts else some sm) [
  | none ↦ none
  | some sm' ↦ some (go (disabled_state_transition sm') sm')
]
run_state aged_state change ts sm = elim (if change then aged_action sm else some sm) [
  | none ↦ none
  | some sm' ↦ go_to (aged_state_transition sm') sm'
]
run_state update change ts sm = some (go current (if change then update_action sm else sm))
run_state current change ts sm = go_to (current_state_transition sm ts) sm
run_state receive change ts sm = elim (if change then receive_action sm else some sm) [
  | none ↦ none
  | some sm' ↦ some (go (receive_state_transition sm') sm')
]
run_state inferior_master_or_other_port change ts sm = some (
    go current (
      if change
      then record sm { port = record sm.port { rcvd_msg = false }; rcvd_announce = none }
      else sm))
run_state repeated_master_port change ts sm =
    elim (if change then repeated_master_port_action sm ts else some sm) [
      | none ↦ none
      | some sm' ↦ some (go current sm')
    ]
run_state superior_master_port change ts sm =
    elim (if change then superior_master_port_action sm ts else some sm) [
      | none ↦ none
      | some sm' ↦ some (go current sm')
    ]

unfoldable pub round : UScaledNs → PortAnnounceInformationSm → Option PortAnnounceInformationSm
unfolding run_state
round ts sm =
    run_state sm.state (not (ordinal sm.last_state == ordinal sm.state)) ts
      (record sm { last_state = sm.state })

pub data Outcome : Type 0 where
  done : PortAnnounceInformationSm → Outcome
  undefined : Outcome
  out_of_fuel : Outcome

unfoldable pub run_loop : ℕ → UScaledNs → PortAnnounceInformationSm → Outcome
run_loop zero ts sm = out_of_fuel
run_loop (suc fuel) ts sm = elim (round ts sm) [
  | none ↦ undefined
  | some sm' ↦
      let rest = run_loop fuel ts sm' in
      if ordinal sm'.last_state == ordinal sm'.state then done sm' else rest
]

abbrev pub run_fuel : ℕ
run_fuel = 12

unfoldable pub port_announce_information_sm_run : UScaledNs → PortAnnounceInformationSm → Outcome
unfolding all_state_transition
port_announce_information_sm_run ts sm = run_loop run_fuel ts (go (all_state_transition sm) sm)

unfoldable pub port_announce_information_sm_recv_announce :
    PortAnnounceInformationSm → UScaledNs → PtpMsgAnnounce → Outcome
port_announce_information_sm_recv_announce sm ts a =
    port_announce_information_sm_run ts
      (record sm { port = record sm.port { rcvd_msg = true }; rcvd_announce = some a })

-- The instance and the port are those of the argument; it runs at time 0.
unfoldable pub init_port_announce_information_sm : PortAnnounceInformationSm → Outcome
init_port_announce_information_sm sm =
    port_announce_information_sm_run (record { subns = 0; nsec = 0; nsec_msb = 0 })
      (record sm { rcvd_announce = none; state = init; last_state = before_init })
