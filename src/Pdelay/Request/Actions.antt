-- ===== src/Pdelay/Request/Actions.antt =====
-- The actions and transitions of the MDPdelayReq machine (time_sync/md_pdelay_req_sm.c).
use ziggo_caa_s_switch.Prelude.{
  ℕ, ◌+◌, Bool, true, false, not, [], Option, none, some, ◌==◌, if◌then◌else◌, nonneg, u16,
}
use ziggo_caa_s_switch.Ptp.ScaledNs.{UScaledNs, uscaledns_subtract, uscaledns_compare}
use ziggo_caa_s_switch.Ptp.Doubles.{one}
use ziggo_caa_s_switch.Pdelay.Messages.{PtpMsgPdelayRespFollowUp}
use ziggo_caa_s_switch.Frame.{PtpFrameHeader}
use ziggo_caa_s_switch.Pdelay.Request.{
  State, waiting_for_pdelay_resp, waiting_for_pdelay_resp_follow_up,
  waiting_for_pdelay_interval_timer, reset, send_pdelay_req, MdPdelayReqSm, go, Outcome, done,
  exit_failure, stuck, undefined, out_of_fuel, set_pdelay_req, tx_pdelay_req,
  md_pdelay_add_resp_and_resp_follow_up_timestamp, is_response_to, is_follow_up_to,
  update_rate_ratio, update_mean_link_delay, judge_response,
}

-- `initial_send_pdelay_req_action` and `send_pdelay_req_action`, up to the message.
unfoldable pub initial_send_pdelay_req_action : ℕ → UScaledNs → MdPdelayReqSm → MdPdelayReqSm
initial_send_pdelay_req_action random ts sm =
    let sm' = record sm { pdelay_req_sequence_id = u16 random } in
    record sm' {
      rcvd_pdelay_resp = false;
      rcvd_pdelay_resp_follow_up = false;
      port = record sm.port { neighbor_rate_ratio = one };
      rcvd_md_timestamp_receive_md_preq = false;
      tx_pdelay_req_ptr = some (set_pdelay_req sm');
      pdelay_interval_timer = ts;
      lost_responses = 0;
      detected_faults = 0;
      md_entity = record sm.md_entity {
        is_measuring_delay = false;
        as_capable_across_domains = false;
      };
    }

unfoldable pub send_pdelay_req_action : UScaledNs → MdPdelayReqSm → MdPdelayReqSm
send_pdelay_req_action ts sm =
    let sm' = record sm { pdelay_req_sequence_id = u16 (sm.pdelay_req_sequence_id + 1) } in
    record sm' { tx_pdelay_req_ptr = some (set_pdelay_req sm'); pdelay_interval_timer = ts }

-- The frame of the message that an action has just set.
unfoldable pub frame_of : MdPdelayReqSm → ℕ × PtpFrameHeader
frame_of sm = tx_pdelay_req sm (set_pdelay_req sm)

-- `elapsedTime >= pdelayReqInterval`.
unfoldable pub is_due : UScaledNs → MdPdelayReqSm → Bool
is_due ts sm = nonneg (
    uscaledns_compare (uscaledns_subtract ts sm.pdelay_interval_timer)
      sm.md_entity.pdelay_req_interval)

-- The transitions that follow a pointer are `none` where it is not set.
unfoldable pub waiting_for_pdelay_resp_state_transition : UScaledNs → MdPdelayReqSm → Option State
waiting_for_pdelay_resp_state_transition ts sm =
    if is_due ts sm
    then some reset
    else (if not sm.rcvd_pdelay_resp
        then some waiting_for_pdelay_resp
        else elim sm.rcvd_pdelay_resp_ptr [
          | none ↦ none
          | some resp ↦ elim sm.tx_pdelay_req_ptr [
            | none ↦ none
            | some req ↦
                some
                  (if is_response_to sm req resp then waiting_for_pdelay_resp_follow_up else reset)
          ]
        ])

-- `rcvdPdelayResp` and the sequence id of the message is that of the request.
unfoldable pub is_repeated : MdPdelayReqSm → Option Bool
is_repeated sm = if not sm.rcvd_pdelay_resp then some false else elim sm.rcvd_pdelay_resp_ptr [
  | none ↦ none
  | some resp ↦ elim sm.tx_pdelay_req_ptr [
    | none ↦ none
    | some req ↦ some (resp.head.sequence_id == req.head.sequence_id)
  ]
]

-- The response is read only where the sequence id of the follow-up is that of the request.
unfoldable pub answered : Bool → MdPdelayReqSm → PtpMsgPdelayRespFollowUp → Option Bool
answered same sm follow = if not same then some false else elim sm.rcvd_pdelay_resp_ptr [
  | none ↦ none
  | some resp ↦ some (is_follow_up_to sm resp follow)
]

unfoldable pub is_followed_up : MdPdelayReqSm → Option Bool
is_followed_up sm =
    if not sm.rcvd_pdelay_resp_follow_up
    then some false
    else elim sm.rcvd_pdelay_resp_follow_up_ptr [
      | none ↦ none
      | some follow ↦ elim sm.tx_pdelay_req_ptr [
        | none ↦ none
        | some req ↦ answered (follow.head.sequence_id == req.head.sequence_id) sm follow
      ]
    ]

unfoldable pub waiting_for_pdelay_resp_follow_up_state_transition :
    UScaledNs → MdPdelayReqSm → Option State
waiting_for_pdelay_resp_follow_up_state_transition ts sm =
    if is_due ts sm then some reset else elim (is_repeated sm) [
      | none ↦ none
      | some true ↦ some reset
      | some false ↦ elim (is_followed_up sm) [
        | none ↦ none
        | some true ↦ some waiting_for_pdelay_interval_timer
        | some false ↦ some waiting_for_pdelay_resp_follow_up
      ]
    ]

-- A transition that may be undefined.
abbrev pub go? : Option State → MdPdelayReqSm → Outcome
go? none sm = undefined
go? (some s) sm = done (go s sm) []

-- The three calls of `free`; the follow-up is freed last.
unfoldable pub free_messages : MdPdelayReqSm → Option MdPdelayReqSm
free_messages sm = elim sm.tx_pdelay_req_ptr [
  | none ↦ none
  | some req ↦ elim sm.rcvd_pdelay_resp_ptr [
    | none ↦ none
    | some resp ↦ elim sm.rcvd_pdelay_resp_follow_up_ptr [
      | none ↦ none
      | some follow ↦ some (record sm {
        tx_pdelay_req_ptr = none;
        rcvd_pdelay_resp_ptr = none;
        rcvd_pdelay_resp_follow_up_ptr = none;
      })
    ]
  ]
]

-- The end of the action, where it gets there.
unfoldable pub release : Outcome → Outcome
release (done sm frames) = elim (free_messages sm) [ none ↦ undefined | some s ↦ done s frames ]
release (exit_failure s) = exit_failure s
release (stuck s) = stuck s
release undefined = undefined
release out_of_fuel = out_of_fuel

unfoldable pub reset_state_transition : UScaledNs → MdPdelayReqSm → State
reset_state_transition ts sm = if is_due ts sm then send_pdelay_req else reset

unfoldable pub waiting_for_pdelay_interval_timer_state_transition :
    UScaledNs → MdPdelayReqSm → State
waiting_for_pdelay_interval_timer_state_transition ts sm =
    if is_due ts sm then send_pdelay_req else waiting_for_pdelay_interval_timer

-- The transition behind the action.
unfoldable pub leave_interval : UScaledNs → Outcome → Outcome
leave_interval ts (done sm frames) =
    done (go (waiting_for_pdelay_interval_timer_state_transition ts sm) sm) frames
leave_interval ts (exit_failure s) = exit_failure s
leave_interval ts (stuck s) = stuck s
leave_interval ts undefined = undefined
leave_interval ts out_of_fuel = out_of_fuel

-- The part of the action that is left out while asymmetry is measured.
unfoldable pub measure : MdPdelayReqSm → Outcome
measure sm =
    let added = md_pdelay_add_resp_and_resp_follow_up_timestamp sm in
    elim (update_rate_ratio added) [
      | none ↦ stuck added
      | some rated ↦ elim (update_mean_link_delay rated) [
        | none ↦ exit_failure rated
        | some sm' ↦ elim sm'.rcvd_pdelay_resp_ptr [
          | none ↦ undefined
          | some resp ↦
              done
                (judge_response resp
                  (record sm' { md_entity = record sm'.md_entity { is_measuring_delay = true } }))
                []
        ]
      ]
    ]

unfoldable pub waiting_for_pdelay_interval_timer_action : MdPdelayReqSm → Outcome
waiting_for_pdelay_interval_timer_action sm =
    let sm' = record sm { rcvd_pdelay_resp_follow_up = false; lost_responses = 0 } in
    release (if sm.port.asymmetry_measurement_mode then done sm' [] else measure sm')
