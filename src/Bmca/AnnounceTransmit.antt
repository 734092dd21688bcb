-- ===== src/Bmca/AnnounceTransmit.antt =====
-- The PortAnnounceTransmit machine of one port (time_sync/port_announce_transmit_sm.c). A frame that
-- `send_ptp_frame` is given is its sequence id and the message. An action whose C code copies past
-- the end of `pathSequence` is `none`. The random sequence id of the initialisation is an argument.
-- The ports of the main loop are 1 to 4, the arrays that they index have five entries: past them, where
-- the C code is undefined, a flag reads as false and a state as disabled.
pub mod Messages
pub mod Rounds
pub mod Ending
mod Examples
use ziggo_caa_s_switch.Prelude.{
  ℕ, zero, suc, ◌+◌, ◌*◌, Bool, true, false, not, ◌&&◌, ◌||◌, List, [], ◌∷◌, ◌++◌, Option, none,
  some, ltb, ◌==◌, if◌then◌else◌, get_or, take, ℤ, negative, u16,
}
use ziggo_caa_s_switch.Ptp.ScaledNs.{UScaledNs, uscaledns_add, uscaledns_compare}
use ziggo_caa_s_switch.Ptp.Globals.{
  PortState, master_port, disabled_port, TimeProperties, PerPortGlobal, PerPtpInstanceGlobal,
  max_path_trace_n,
}
use ziggo_caa_s_switch.Bmca.AnnounceInfo.{PtpMsgAnnounce}

pub data State : Type 0 where
  reaction before_init init transmit_init transmit_periodic idle transmit_announce : State

abbrev pub ordinal : State → ℕ
ordinal reaction = 0
ordinal before_init = 1
ordinal init = 2
ordinal transmit_init = 3
ordinal transmit_periodic = 4
ordinal idle = 5
ordinal transmit_announce = 6

pub record PortAnnounceTransmitSm : Type 0 where
  pub announce_send_time : UScaledNs
  pub number_announce_transmission : ℕ
  pub interval2 : UScaledNs
  pub instance_global : PerPtpInstanceGlobal
  pub port : PerPortGlobal
  pub sequence_id : ℕ
  pub tx_announce : Option PtpMsgAnnounce
  pub new_info : Bool
  pub announce_slowdown : Bool
  pub state : State
  pub last_state : State

-- `if (b) flags |= mask`, for masks that are set once each.
abbrev flag : Bool → ℕ → ℕ
flag b mask = if b then mask else 0

-- `head.flags[1]` (`ptp_msg_ann_header_template`).
unfoldable pub announce_flags : TimeProperties → ℕ
announce_flags t =
    flag t.leap61 1
    + flag t.leap59 2
    + flag t.current_utc_offset_valid 4
    + flag t.ptp_timescale 8
    + flag t.time_traceable 16
    + flag t.frequency_traceable 32

-- The message by the instance and the port of the machine. Past the path it is not initialised.
unfoldable pub set_announce : PerPtpInstanceGlobal → PerPortGlobal → Option PtpMsgAnnounce
set_announce g p =
    if ltb max_path_trace_n g.n_path_trace
    then none
    else some (record {
      flags1 = announce_flags g.time;
      source_clock_identity = g.this_clock;
      source_port_number = p.this_port;
      log_message_interval = p.current_log_announce_interval;
      current_utc_offset = g.time.current_utc_offset;
      grandmaster_priority1 = p.master_priority.root_system_identity.priority1;
      clock_class = p.master_priority.root_system_identity.clock_class;
      clock_accuracy = p.master_priority.root_system_identity.clock_accuracy;
      offset_scaled_log_variance =
          p.master_priority.root_system_identity.offset_scaled_log_variance;
      grandmaster_priority2 = p.master_priority.root_system_identity.priority2;
      grandmaster_identity = p.master_priority.root_system_identity.clock_identity;
      steps_removed = g.master_steps_removed;
      time_source = g.time.time_source;
      length_field = g.n_path_trace * 8;
      path_sequence = take g.n_path_trace g.path_trace;
    })

unfoldable pub all_state_transition : PortAnnounceTransmitSm → State
all_state_transition sm =
    if sm.instance_global.begin || not sm.instance_global.instance_enable
    then transmit_init
    else sm.state

abbrev pub is_master : PortState → Bool
is_master master_port = true
is_master _ = false

-- The choice of the port stands, or is made from outside.
abbrev pub is_settled : PerPtpInstanceGlobal → PerPortGlobal → Bool
is_settled g p =
    (get_or g.selected p.this_port false && not p.updt_info)
    || g.external_port_configuration_enabled

-- `announceSendTime` has not come yet.
abbrev pub is_early : UScaledNs → PortAnnounceTransmitSm → Bool
is_early ts sm = negative (uscaledns_compare ts sm.announce_send_time)

unfoldable pub idle_state_transition : UScaledNs → PortAnnounceTransmitSm → State
idle_state_transition ts sm =
    if not (is_early ts sm) && is_settled sm.instance_global sm.port
    then transmit_periodic
    else (if sm.new_info
          && is_master (get_or sm.instance_global.selected_state sm.port.this_port disabled_port)
          && is_early ts sm
          && is_settled sm.instance_global sm.port
          && not sm.port.asymmetry_measurement_mode
        then transmit_announce
        else sm.state)

-- `transmit_announce_action`, with `txAnnounce`: the machine and the frame that is sent.
unfoldable pub transmit_announce_action :
    PortAnnounceTransmitSm → Option (PortAnnounceTransmitSm × (ℕ × PtpMsgAnnounce))
transmit_announce_action sm = elim (set_announce sm.instance_global sm.port) [
  | none ↦ none
  | some a ↦ some (
    record sm { new_info = false; tx_announce = some a; interval2 = sm.port.announce_interval },
    (sm.sequence_id, a),
  )
]

abbrev pub go : State → PortAnnounceTransmitSm → PortAnnounceTransmitSm
go s sm = record sm { state = s }

-- The `switch`, by the state: the action on a change of state, and the transition.
unfoldable pub run_state :
    State
    → Bool
    → UScaledNs
    → PortAnnounceTransmitSm
    → Option (PortAnnounceTransmitSm × List (ℕ × PtpMsgAnnounce))
run_state reaction change ts sm = some (sm, [])
run_state before_init change ts sm = some (sm, [])
run_state init change ts sm = some (go transmit_init sm, [])
run_state transmit_init change ts sm = some (
  go idle (
      if change
      then record sm {
        new_info = true;
        announce_slowdown = false;
        number_announce_transmission = 0;
      }
      else sm),
  [],
)
run_state transmit_periodic change ts sm =
    some (go idle (if change then record sm { new_info = true } else sm), [])
run_state idle change ts sm =
    let sm' =
      (if change then record sm { announce_send_time = uscaledns_add ts sm.interval2 } else sm) in
    some (go (idle_state_transition ts sm') sm', [])
run_state transmit_announce change ts sm =
    if change
    then elim (transmit_announce_action sm) [
      | none ↦ none
      | some (sm', frame) ↦ some (go idle sm', frame ∷ [])
    ]
    else some (go idle sm, [])

unfoldable pub round :
    UScaledNs → PortAnnounceTransmitSm → Option (PortAnnounceTransmitSm × List (ℕ × PtpMsgAnnounce))
round ts sm =
    run_state sm.state (not (ordinal sm.state == ordinal sm.last_state)) ts
      (record sm { last_state = sm.state })

-- The machine at the end and the frames that it has sent, or why there is none.
pub data Outcome : Type 0 where
  done : PortAnnounceTransmitSm → List (ℕ × PtpMsgAnnounce) → Outcome
  undefined : Outcome
  out_of_fuel : Outcome

unfoldable pub run_loop :
    ℕ → UScaledNs → PortAnnounceTransmitSm → List (ℕ × PtpMsgAnnounce) → Outcome
run_loop zero ts sm sent = out_of_fuel
run_loop (suc fuel) ts sm sent = elim (round ts sm) [
  | none ↦ undefined
  | some (sm', frames) ↦
      let rest = run_loop fuel ts sm' (sent ++ frames) in
      if ordinal sm'.state == ordinal sm'.last_state then done sm' (sent ++ frames) else rest
]

abbrev pub run_fuel : ℕ
run_fuel = 6

unfoldable pub port_announce_transmit_sm_run : UScaledNs → PortAnnounceTransmitSm → Outcome
port_announce_transmit_sm_run ts sm = run_loop run_fuel ts (go (all_state_transition sm) sm) []

unfoldable pub init_port_announce_transmit_sm : ℕ → PortAnnounceTransmitSm → Outcome
init_port_announce_transmit_sm random sm =
    port_announce_transmit_sm_run (record { subns = 0; nsec = 0; nsec_msb = 0 })
      (record sm {
        interval2 = sm.port.announce_interval;
        sequence_id = u16 random;
        tx_announce = none;
        new_info = false;
        announce_slowdown = false;
        state = init;
        last_state = before_init;
      })
