-- ===== src/Bmca/AnnounceInfoExt.antt =====
-- The PortAnnounceInformationExt machine of one port, for roles that are set from outside
-- (time_sync/port_announce_information_ext_sm.c). A path trace that does not fit the instance's eight
-- entries is `none`, as is reading a message that is not there.
pub mod Taking
mod Examples
use ziggo_caa_s_switch.Prelude.{
  ℕ, zero, suc, ◌+◌, ◌/◌, Bool, true, false, not, ◌&&◌, ◌||◌, List, [], ◌∷◌, ◌++◌, Option, none,
  some, leb, ◌==◌, if◌then◌else◌, get_or, take, drop, u16,
}
use ziggo_caa_s_switch.Ptp.Priority.{PriorityVector}
use ziggo_caa_s_switch.Ptp.Globals.{
  disabled_port, max_path_trace_n, PerPortGlobal, PerPtpInstanceGlobal,
}
use ziggo_caa_s_switch.Bmca.StateSelection.{is_slave}
use ziggo_caa_s_switch.Bmca.AnnounceInfo.{PtpMsgAnnounce, announced_vector, announced_time}

pub data State : Type 0 where
  reaction before_init init initialize receive : State

abbrev pub ordinal : State → ℕ
ordinal reaction = 0
ordinal before_init = 1
ordinal init = 2
ordinal initialize = 3
ordinal receive = 4

pub record PortAnnounceInformationExtSm : Type 0 where
  pub rcvd_announce_paie : Bool
  pub rcvd_announce : Option PtpMsgAnnounce
  pub instance_global : PerPtpInstanceGlobal
  pub port : PerPortGlobal
  pub state : State
  pub last_state : State

-- The grandmaster's vector by the message: its own, one step further.
unfoldable pub rcv_vector : PriorityVector → PtpMsgAnnounce → PriorityVector
unfolding announced_vector
rcv_vector old a = record (announced_vector old a) { steps_removed = u16 (a.steps_removed + 1) }

-- `rcvInfoExt` on a slave port: the path of the message, with this clock behind it.
unfoldable pub rcv_info_ext : PerPtpInstanceGlobal → PtpMsgAnnounce → Option PerPtpInstanceGlobal
rcv_info_ext g a =
    let n = a.length_field / 8 in
    if leb max_path_trace_n n
    then none
    else some (record g {
      gm_steps_removed = u16 (a.steps_removed + 1);
      gm_priority = rcv_vector g.gm_priority a;
      path_trace = take n a.path_sequence ++ g.this_clock ∷ drop (n + 1) g.path_trace;
      n_path_trace = n + 1;
    })

-- `recordOtherAnnounceInfo` on a slave port.
unfoldable pub record_other_announce_info :
    PerPtpInstanceGlobal → PtpMsgAnnounce → PerPtpInstanceGlobal
record_other_announce_info g a = record g { time = announced_time a }

abbrev pub is_capable : PerPortGlobal → Bool
is_capable p = p.port_oper && p.ptp_port_enabled && p.as_capable

abbrev pub is_slave_port : PortAnnounceInformationExtSm → Bool
is_slave_port sm =
    is_slave (get_or sm.instance_global.selected_state sm.port.this_port disabled_port)

unfoldable pub all_state_transition : PortAnnounceInformationExtSm → State
all_state_transition sm =
    if (not (is_capable sm.port) || begin || not instance_enable)
      && external_port_configuration_enabled
    then initialize
    else sm.state
  where
    open sm.instance_global use {begin, instance_enable, external_port_configuration_enabled}

abbrev pub go : State → PortAnnounceInformationExtSm → PortAnnounceInformationExtSm
go s sm = record sm { state = s }

unfoldable pub initialize_state_transition : PortAnnounceInformationExtSm → State
initialize_state_transition sm =
    if is_capable sm.port && sm.rcvd_announce_paie then receive else initialize

unfoldable pub receive_action : PortAnnounceInformationExtSm → Option PortAnnounceInformationExtSm
receive_action sm =
    if is_slave_port sm
    then elim sm.rcvd_announce [
      | none ↦ none
      | some a ↦ elim (rcv_info_ext sm.instance_global a) [
        | none ↦ none
        | some g ↦ some (record sm {
          instance_global = record_other_announce_info g a;
          rcvd_announce_paie = false;
        })
      ]
    ]
    else some (record sm { rcvd_announce_paie = false })

-- The transition stays in RECEIVE; with another message pending it is entered again.
unfoldable pub receive_state_transition :
    PortAnnounceInformationExtSm → PortAnnounceInformationExtSm
receive_state_transition sm =
    if is_capable sm.port && sm.rcvd_announce_paie
    then record sm { last_state = reaction; state = receive }
    else record sm { state = receive }

unfoldable pub run_state :
    State → Bool → PortAnnounceInformationExtSm → Option PortAnnounceInformationExtSm
run_state reaction change sm = some sm
run_state before_init change sm = some sm
run_state init change sm = some (go initialize sm)
run_state initialize change sm =
    let sm' = (if change then record sm { rcvd_announce_paie = false } else sm) in
    some (go (initialize_state_transition sm') sm')
run_state receive change sm = elim (if change then receive_action sm else some sm) [
  | none ↦ none
  | some sm' ↦ some (receive_state_transition sm')
]

unfoldable pub round : PortAnnounceInformationExtSm → Option PortAnnounceInformationExtSm
round sm =
    run_state sm.state (not (ordinal sm.last_state == ordinal sm.state))
      (record sm { last_state = sm.state })

pub data Outcome : Type 0 where
  done : PortAnnounceInformationExtSm → Outcome
  undefined : Outcome
  out_of_fuel : Outcome

unfoldable pub run_loop : ℕ → PortAnnounceInformationExtSm → Outcome
run_loop zero sm = out_of_fuel
run_loop (suc fuel) sm = elim (round sm) [
  | none ↦ undefined
  | some sm' ↦
      let rest = run_loop fuel sm' in
      if ordinal sm'.last_state == ordinal sm'.state then done sm' else rest
]

abbrev pub run_fuel : ℕ
run_fuel = 4

unfoldable pub port_announce_information_ext_sm_run : PortAnnounceInformationExtSm → Outcome
port_announce_information_ext_sm_run sm = run_loop run_fuel (go (all_state_transition sm) sm)

unfoldable pub init_port_announce_information_ext_sm : PortAnnounceInformationExtSm → Outcome
init_port_announce_information_ext_sm sm = port_announce_information_ext_sm_run (record sm {
  rcvd_announce_paie = false;
  rcvd_announce = none;
  state = init;
  last_state = before_init;
})

unfoldable pub port_announce_information_ext_sm_recv_announce :
    PortAnnounceInformationExtSm → PtpMsgAnnounce → Outcome
port_announce_information_ext_sm_recv_announce sm a =
    port_announce_information_ext_sm_run
      (record sm { rcvd_announce_paie = true; rcvd_announce = some a })
