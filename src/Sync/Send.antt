-- ===== src/Sync/Send.antt =====
-- The MDSyncSend machine of one port (time_sync/md_sync_send_sm.c). The pointers are options; reading
-- through NULL is undefined. The random sequence id of `initializing_action` is an argument.
pub mod Events
pub mod Safety
pub mod Sending
pub mod Wrapping
pub mod Following
use ziggo_caa_s_switch.Prelude.{
  ℕ, zero, suc, ◌+◌, Bool, true, false, not, ◌&&◌, ◌||◌, List, [], ◌∷◌, ◌++◌, Option, none, some,
  ◌==◌, if◌then◌else◌, u16,
}
use ziggo_caa_s_switch.Ptp.ScaledNs.{
  UScaledNs, PtpMsgTimestamp, uscaledns_subtract, uscaledns_add, uint64_uscaledns,
}
use ziggo_caa_s_switch.Ptp.Doubles.{Double}
use ziggo_caa_s_switch.Ptp.Globals.{PerPortGlobal, PerPtpInstanceGlobal, MdEntityGlobal}
use ziggo_caa_s_switch.Frame.{
  PortIdentity, PtpFrameHeader, ptp_msg_header_template, set_ptp_frame_header,
}
use ziggo_caa_s_switch.Frame as Frame
use ziggo_caa_s_switch.Pdelay.Messages.{TsuTimestamp}
use ziggo_caa_s_switch.Sync.Messages.{
  PtpMsgSync, PtpMsgFollowUp, PtpFrameFollowUp, frame_follow_up, size_of_sync, size_of_follow_up,
}

pub record MdSyncSend : Type 0 where
  pub domain_number : ℕ
  pub follow_up_correction_field : UScaledNs
  pub source_port_identity : PortIdentity
  pub log_message_interval : ℕ
  pub precise_origin_timestamp : PtpMsgTimestamp
  pub upstream_tx_time : UScaledNs
  pub rate_ratio : Double
  pub gm_time_base_indicator : ℕ
  pub last_gm_phase_change : UScaledNs
  pub last_gm_freq_change : Double

pub data State : Type 0 where
  reaction before_init init initializing send_sync send_follow_up : State

-- An enumerator is its number.
abbrev pub ordinal : State → ℕ
ordinal reaction = 0
ordinal before_init = 1
ordinal init = 2
ordinal initializing = 3
ordinal send_sync = 4
ordinal send_follow_up = 5

pub record MdSyncSendSm : Type 0 where
  pub rcvd_md_sync_mdss : Bool
  pub rcvd_md_sync_ptr : Option MdSyncSend
  pub tx_sync_ptr : Option PtpMsgSync
  pub rcvd_md_timestamp_receive_mdss : Bool
  pub rcvd_md_timestamp_receive_ptr : Option TsuTimestamp
  pub tx_follow_up_ptr : Option PtpMsgFollowUp
  pub sync_event_egress_timestamp : UScaledNs
  pub instance_global : PerPtpInstanceGlobal
  pub md_entity : MdEntityGlobal
  pub port : PerPortGlobal
  pub state : State
  pub last_state : State

-- A frame that is sent to a port.
pub data Sent : Type 0 where
  sync : ℕ → PtpFrameHeader → Sent
  follow_up : ℕ → PtpFrameFollowUp → Sent

pub data Outcome : Type 0 where
  done : MdSyncSendSm → List Sent → Outcome
  undefined : Outcome
  out_of_fuel : Outcome

abbrev pub go : State → MdSyncSendSm → MdSyncSendSm
go s sm = record sm { state = s }

unfoldable pub set_sync_two_step : MdSyncSendSm → MdSyncSend → PtpMsgSync
set_sync_two_step sm md = record {
  head =
      ptp_msg_header_template Frame.sync size_of_sync md.source_port_identity
        sm.md_entity.sync_sequence_id md.log_message_interval 0;
}

unfoldable pub set_follow_up : MdSyncSendSm → MdSyncSend → PtpMsgSync → PtpMsgFollowUp
set_follow_up sm md tx =
    let elapsed_time = uscaledns_subtract sm.sync_event_egress_timestamp md.upstream_tx_time in
    let correction = uint64_uscaledns (uscaledns_add md.follow_up_correction_field elapsed_time) in
    record {
      head =
          ptp_msg_header_template Frame.follow_up size_of_follow_up md.source_port_identity
            tx.head.sequence_id md.log_message_interval correction;
      precise_origin_timestamp = md.precise_origin_timestamp;
      follow_up_information_tlv = record {
        tlv_type = 3;
        length_field = 28;
        organization_id = 0 ∷ 0x80 ∷ 0xc2 ∷ [];
        organization_sub_type = 0 ∷ 0 ∷ 1 ∷ [];
        cumulative_scaled_rate_offset = 0;
        gm_time_base_indicator = md.gm_time_base_indicator;
        last_gm_phase_change = md.last_gm_phase_change;
        scaled_last_gm_freq_change = 0;
      };
    }

-- `portOper && ptpPortEnabled && asCapable`.
abbrev pub is_capable : PerPortGlobal → Bool
is_capable p = p.port_oper && p.ptp_port_enabled && p.as_capable

unfoldable pub all_state_transition : MdSyncSendSm → State
all_state_transition sm =
    let third_term =
      sm.rcvd_md_sync_mdss
      && (not sm.port.port_oper || not sm.port.ptp_port_enabled || not sm.port.as_capable) in
    if sm.instance_global.begin || not sm.instance_global.instance_enable || third_term
    then initializing
    else sm.state

unfoldable pub initializing_action : ℕ → MdSyncSendSm → MdSyncSendSm
initializing_action random sm = record sm {
  rcvd_md_sync_mdss = false;
  rcvd_md_timestamp_receive_mdss = false;
  md_entity = record sm.md_entity { sync_sequence_id = u16 random };
}

unfoldable pub initializing_state_transition : MdSyncSendSm → State
initializing_state_transition sm =
    if sm.rcvd_md_sync_mdss && is_capable sm.port && not sm.port.asymmetry_measurement_mode
    then send_sync
    else initializing

unfoldable pub send_sync_action : MdSyncSendSm → Outcome
send_sync_action sm = elim sm.rcvd_md_sync_ptr [
  | none ↦ undefined
  | some md ↦
      let tx = set_sync_two_step sm md in
      done
        (record sm {
          rcvd_md_sync_mdss = false;
          tx_sync_ptr = some tx;
          md_entity = record sm.md_entity {
            sync_sequence_id = u16 (sm.md_entity.sync_sequence_id + 1);
          };
        })
        (sync sm.port.this_port (set_ptp_frame_header tx.head) ∷ [])
]

unfoldable pub send_sync_state_transition : MdSyncSendSm → State
send_sync_state_transition sm =
    if sm.rcvd_md_timestamp_receive_mdss then send_follow_up else send_sync

unfoldable pub send_follow_up_action : MdSyncSendSm → Outcome
send_follow_up_action sm = elim sm.rcvd_md_sync_ptr [
  | none ↦ undefined
  | some md ↦ elim sm.tx_sync_ptr [
    | none ↦ undefined
    | some tx ↦
        let f = set_follow_up sm md tx in
        done (record sm { rcvd_md_timestamp_receive_mdss = false; tx_follow_up_ptr = some f })
          (follow_up sm.port.this_port (frame_follow_up f) ∷ [])
  ]
]

unfoldable pub send_follow_up_state_transition : MdSyncSendSm → State
send_follow_up_state_transition sm =
    if sm.rcvd_md_sync_mdss && is_capable sm.port && not sm.port.asymmetry_measurement_mode
    then send_sync
    else send_follow_up

-- The transition behind an action.
abbrev pub leave : (MdSyncSendSm → State) → Outcome → Outcome
leave f (done sm sent) = done (go (f sm) sm) sent
leave f undefined = undefined
leave f out_of_fuel = out_of_fuel

abbrev pub run_fuel : ℕ
run_fuel = 5

module _ (random : ℕ) where
  -- The `switch`, by the state: the action on a change of state, and the transition.
  unfoldable pub run_state : State → Bool → MdSyncSendSm → Outcome
  run_state reaction change sm = done sm []
  run_state before_init change sm = done sm []
  run_state init change sm = done (go initializing sm) []
  run_state initializing change sm =
      let s = (if change then initializing_action random sm else sm) in
      done (go (initializing_state_transition s) s) []
  run_state send_sync change sm =
      leave send_sync_state_transition (if change then send_sync_action sm else done sm [])
  run_state send_follow_up change sm =
      leave send_follow_up_state_transition
        (if change then send_follow_up_action sm else done sm [])

  unfoldable pub round : MdSyncSendSm → Outcome
  round sm =
      run_state sm.state (not (ordinal sm.state == ordinal sm.last_state))
        (record sm { last_state = sm.state })

  unfoldable pub run_loop : ℕ → MdSyncSendSm → List Sent → Outcome
  run_loop zero sm sent = out_of_fuel
  run_loop (suc fuel) sm sent = elim (round sm) [
    | done sm' frames ↦
        let rest = run_loop fuel sm' (sent ++ frames) in
        if ordinal sm'.state == ordinal sm'.last_state then done sm' (sent ++ frames) else rest
    | undefined ↦ undefined
    | out_of_fuel ↦ out_of_fuel
  ]

  unfoldable pub md_sync_send_sm_run : MdSyncSendSm → Outcome
  md_sync_send_sm_run sm = run_loop run_fuel (go (all_state_transition sm) sm) []

  unfoldable pub init_md_sync_send_sm : MdSyncSendSm → Outcome
  init_md_sync_send_sm sm = md_sync_send_sm_run (record sm {
    rcvd_md_sync_ptr = none;
    rcvd_md_timestamp_receive_ptr = none;
    tx_sync_ptr = none;
    tx_follow_up_ptr = none;
    state = init;
    last_state = before_init;
  })

  unfoldable pub md_sync_send_sm_recv_md_sync : MdSyncSend → MdSyncSendSm → Outcome
  md_sync_send_sm_recv_md_sync md sm =
      md_sync_send_sm_run (record sm { rcvd_md_sync_mdss = true; rcvd_md_sync_ptr = some md })

  -- `sequenceID != syncSequenceId - 1` is a test of `int`s: no sequence id is the one before 0.
  unfoldable pub md_sync_send_sm_txts : TsuTimestamp → MdSyncSendSm → Outcome
  md_sync_send_sm_txts stamp sm =
      if not (ordinal sm.state == 4)
      then done sm []
      else (if stamp.sequence_id + 1 == sm.md_entity.sync_sequence_id
          then md_sync_send_sm_run (record sm {
            rcvd_md_timestamp_receive_mdss = true;
            rcvd_md_timestamp_receive_ptr = some stamp;
            sync_event_egress_timestamp = stamp.ts;
          })
          else done sm [])
