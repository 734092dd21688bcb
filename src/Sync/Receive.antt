-- ===== src/Sync/Receive.antt =====
-- The MDSyncReceive machine of one port (time_sync/md_sync_receive_sm.c). The pointers are options;
-- reading through NULL is undefined. A message for the port's PortSyncSyncReceive machine is an output;
-- what that machine then writes to the shared state is not part of the run: behind the call the run
-- reads only `rcvdSync`, which it has just reset.
pub mod Events
pub mod Safety
pub mod Receiving
use ziggo_caa_s_switch.Prelude.{
  ℕ, zero, suc, Bool, true, false, not, ◌&&◌, ◌||◌, List, [], ◌∷◌, ◌++◌, Option, none, some, ◌==◌,
  if◌then◌else◌, nonneg,
}
use ziggo_caa_s_switch.Ptp.ScaledNs.{
  UScaledNs, PtpMsgTimestamp, uscaledns_subtract, uscaledns_add, uscaledns_compare,
  uscaledns_uint64,
}
use ziggo_caa_s_switch.Ptp.Doubles.{Double, one}
use ziggo_caa_s_switch.Ptp.Globals.{PerPortGlobal, PerPtpInstanceGlobal}
use ziggo_caa_s_switch.Frame.{PortIdentity}
use ziggo_caa_s_switch.Pdelay.Messages.{TsuTimestamp}
use ziggo_caa_s_switch.Sync.Messages.{PtpMsgSync, PtpMsgFollowUp}

pub record MdSyncReceive : Type 0 where
  pub domain_number : ℕ
  pub follow_up_correction_field : UScaledNs
  pub source_port_identity : PortIdentity
  pub log_message_interval : ℕ
  pub precise_origin_timestamp : PtpMsgTimestamp
  pub upstream_tx_time : UScaledNs
  pub rate_ratio : Double
  pub gm_time_base_indicator : ℕ
  pub last_gm_phase_change : UScaledNs
  pub last_gm_freq_change : Double

pub data State : Type 0 where
  reaction before_init init discard waiting_for_follow_up waiting_for_sync : State

-- An enumerator is its number.
abbrev pub ordinal : State → ℕ
ordinal reaction = 0
ordinal before_init = 1
ordinal init = 2
ordinal discard = 3
ordinal waiting_for_follow_up = 4
ordinal waiting_for_sync = 5

pub record MdSyncReceiveSm : Type 0 where
  pub follow_up_receipt_timeout_time : UScaledNs
  pub rcvd_sync : Bool
  pub rcvd_follow_up : Bool
  pub rcvd_sync_ptr : Option PtpMsgSync
  pub rcvd_follow_up_ptr : Option PtpMsgFollowUp
  pub tx_md_sync_receive_ptr_mdsr : Option MdSyncReceive
  pub upstream_sync_interval : UScaledNs
  pub sync_event_ingress_timestamp : UScaledNs
  pub instance_global : PerPtpInstanceGlobal
  pub port : PerPortGlobal
  pub state : State
  pub last_state : State

pub data Outcome : Type 0 where
  done : MdSyncReceiveSm → List MdSyncReceive → Outcome
  undefined : Outcome
  out_of_fuel : Outcome

abbrev pub go : State → MdSyncReceiveSm → MdSyncReceiveSm
go s sm = record sm { state = s }

unfoldable pub set_md_sync_receive_mdsr :
    MdSyncReceiveSm → PtpMsgSync → PtpMsgFollowUp → MdSyncReceive
set_md_sync_receive_mdsr sm s f = record {
  domain_number = s.head.domain_number;
  follow_up_correction_field =
      uscaledns_add (uscaledns_uint64 s.head.correction_field)
        (uscaledns_uint64 f.head.correction_field);
  source_port_identity = s.head.source_port_identity;
  log_message_interval = s.head.log_message_interval;
  precise_origin_timestamp = f.precise_origin_timestamp;
  upstream_tx_time = uscaledns_subtract sm.sync_event_ingress_timestamp sm.port.mean_link_delay;
  rate_ratio = one;
  gm_time_base_indicator = f.follow_up_information_tlv.gm_time_base_indicator;
  last_gm_phase_change = f.follow_up_information_tlv.last_gm_phase_change;
  last_gm_freq_change = record { num = 0; scale = 0 };
}

-- `portOper && ptpPortEnabled && asCapable`.
abbrev pub is_port_valid : PerPortGlobal → Bool
is_port_valid p = p.port_oper && p.ptp_port_enabled && p.as_capable

unfoldable pub all_state_transition : MdSyncReceiveSm → State
all_state_transition sm =
    let third_term =
      sm.rcvd_sync
      && (not sm.port.port_oper || not sm.port.ptp_port_enabled || not sm.port.as_capable) in
    if sm.instance_global.begin || not sm.instance_global.instance_enable || third_term
    then discard
    else sm.state

unfoldable pub discard_state_transition : MdSyncReceiveSm → State
discard_state_transition sm =
    if sm.rcvd_sync && is_port_valid sm.port && not sm.port.asymmetry_measurement_mode
    then waiting_for_follow_up
    else discard

unfoldable pub waiting_for_follow_up_action : UScaledNs → MdSyncReceiveSm → MdSyncReceiveSm
waiting_for_follow_up_action ts sm =
    let interval : UScaledNs = record { subns = 0; nsec = 1000000000; nsec_msb = 0 } in
    record sm {
      rcvd_sync = false;
      upstream_sync_interval = interval;
      follow_up_receipt_timeout_time = uscaledns_add ts interval;
    }

-- `rcvdFollowUp` and the sequence id of the follow-up is that of the sync message.
unfoldable pub is_followed_up : MdSyncReceiveSm → Option Bool
is_followed_up sm = if not sm.rcvd_follow_up then some false else elim sm.rcvd_follow_up_ptr [
  | none ↦ none
  | some f ↦ elim sm.rcvd_sync_ptr [
    | none ↦ none
    | some s ↦ some (f.head.sequence_id == s.head.sequence_id)
  ]
]

-- A further sync message enters the state again: `last_state` is set to REACTION.
unfoldable pub waiting_for_follow_up_state_transition : UScaledNs → MdSyncReceiveSm → Outcome
waiting_for_follow_up_state_transition ts sm =
    if sm.rcvd_sync && is_port_valid sm.port
    then done (record sm { last_state = reaction; state = waiting_for_follow_up }) []
    else elim (is_followed_up sm) [
      | none ↦ undefined
      | some true ↦ done (go waiting_for_sync sm) []
      | some false ↦
          if nonneg (uscaledns_compare ts sm.follow_up_receipt_timeout_time)
            && not sm.port.asymmetry_measurement_mode
          then done (go discard sm) []
          else done (go waiting_for_follow_up sm) []
    ]

unfoldable pub waiting_for_sync_action : MdSyncReceiveSm → Outcome
waiting_for_sync_action sm = elim sm.rcvd_sync_ptr [
  | none ↦ undefined
  | some s ↦ elim sm.rcvd_follow_up_ptr [
    | none ↦ undefined
    | some f ↦
        let md = set_md_sync_receive_mdsr sm s f in
        done
          (record sm {
            rcvd_sync = false;
            rcvd_follow_up = false;
            tx_md_sync_receive_ptr_mdsr = some md;
          })
          (md ∷ [])
  ]
]

unfoldable pub waiting_for_sync_state_transition : MdSyncReceiveSm → State
waiting_for_sync_state_transition sm =
    if sm.rcvd_sync && is_port_valid sm.port && not sm.port.asymmetry_measurement_mode
    then waiting_for_follow_up
    else waiting_for_sync

-- The transition behind an action.
abbrev pub leave : (MdSyncReceiveSm → State) → Outcome → Outcome
leave f (done sm sent) = done (go (f sm) sm) sent
leave f undefined = undefined
leave f out_of_fuel = out_of_fuel

abbrev pub run_fuel : ℕ
run_fuel = 6

module _ (ts : UScaledNs) where
  -- The `switch`, by the state: the action on a change of state, and the transition.
  unfoldable pub run_state : State → Bool → MdSyncReceiveSm → Outcome
  run_state reaction change sm = done sm []
  run_state before_init change sm = done sm []
  run_state init change sm = done (go discard sm) []
  run_state discard change sm =
      let s = (if change then record sm { rcvd_sync = false; rcvd_follow_up = false } else sm) in
      done (go (discard_state_transition s) s) []
  run_state waiting_for_follow_up change sm =
      waiting_for_follow_up_state_transition ts
        (if change then waiting_for_follow_up_action ts sm else sm)
  run_state waiting_for_sync change sm =
      leave waiting_for_sync_state_transition
        (if change then waiting_for_sync_action sm else done sm [])

  unfoldable pub round : MdSyncReceiveSm → Outcome
  round sm =
      run_state sm.state (not (ordinal sm.state == ordinal sm.last_state))
        (record sm { last_state = sm.state })

  unfoldable pub run_loop : ℕ → MdSyncReceiveSm → List MdSyncReceive → Outcome
  run_loop zero sm sent = out_of_fuel
  run_loop (suc fuel) sm sent = elim (round sm) [
    | done sm' more ↦
        let rest = run_loop fuel sm' (sent ++ more) in
        if ordinal sm'.state == ordinal sm'.last_state then done sm' (sent ++ more) else rest
    | undefined ↦ undefined
    | out_of_fuel ↦ out_of_fuel
  ]

  unfoldable pub md_sync_receive_sm_run : MdSyncReceiveSm → Outcome
  md_sync_receive_sm_run sm = run_loop run_fuel (go (all_state_transition sm) sm) []

  unfoldable pub md_sync_receive_sm_recv_sync :
      TsuTimestamp → PtpMsgSync → MdSyncReceiveSm → Outcome
  md_sync_receive_sm_recv_sync stamp s sm = md_sync_receive_sm_run (record sm {
    rcvd_sync = true;
    rcvd_sync_ptr = some s;
    sync_event_ingress_timestamp = stamp.ts;
  })

  unfoldable pub md_sync_receive_sm_recv_follow_up : PtpMsgFollowUp → MdSyncReceiveSm → Outcome
  md_sync_receive_sm_recv_follow_up f sm =
      md_sync_receive_sm_run (record sm { rcvd_follow_up = true; rcvd_follow_up_ptr = some f })

unfoldable pub init_md_sync_receive_sm : MdSyncReceiveSm → Outcome
init_md_sync_receive_sm sm =
    md_sync_receive_sm_run (record { subns = 0; nsec = 0; nsec_msb = 0 })
      (record sm {
        rcvd_sync_ptr = none;
        rcvd_follow_up_ptr = none;
        state = init;
        last_state = before_init;
      })
