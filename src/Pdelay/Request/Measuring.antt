-- ===== src/Pdelay/Request/Measuring.antt =====
-- The measurement at the end of an exchange of the MDPdelayReq machine keeps the pointers and the bounds
-- of the lists (time_sync/md_pdelay_req_sm.c).
use ziggo_caa_s_switch.Prelude.{
  ◌+◌, ◌%◌, length, length-set, ◌<◌, ◌≡◌, inl, inr, Bool, true, false, if◌then◌else◌, arith,
  Option-cases, [], none, some, ◌==◌,
}
use ziggo_caa_s_switch.Ptp.ScaledNs.{uscaledns_subtract}
use ziggo_caa_s_switch.Ptp.Quotient.{limbs}
use ziggo_caa_s_switch.Ptp.Quotient.Arrays.{number}
use ziggo_caa_s_switch.Ptp.Quotient.Returns.{uscaledns_div-none}
use ziggo_caa_s_switch.Pdelay.Messages.{PtpMsgPdelayResp}
use ziggo_caa_s_switch.Pdelay.Request.{
  MdPdelayReqSm, Outcome, done, exit_failure, stuck, undefined, out_of_fuel, max_length, stamp,
  md_pdelay_add_resp_and_resp_follow_up_timestamp, judge_response, update_mean_link_delay,
  update_rate_ratio, compute_pdelay_rate_ratio, compute_prop_time,
}
use ziggo_caa_s_switch.Pdelay.Request.Actions.{measure}
use ziggo_caa_s_switch.Pdelay.Request.Validity.{is_some}

-- What the measurement of an interval leaves alone, and the bounds of the lists.
pub record Keeps (sm s : MdPdelayReqSm) : Type 0 where
  pub request : s.tx_pdelay_req_ptr ≡ sm.tx_pdelay_req_ptr
  pub response : s.rcvd_pdelay_resp_ptr ≡ sm.rcvd_pdelay_resp_ptr
  pub follow_up : s.rcvd_pdelay_resp_follow_up_ptr ≡ sm.rcvd_pdelay_resp_follow_up_ptr
  pub received : s.rcvd_pdelay_resp ≡ sm.rcvd_pdelay_resp
  pub followed : s.rcvd_pdelay_resp_follow_up ≡ sm.rcvd_pdelay_resp_follow_up
  pub sent : s.rcvd_md_timestamp_receive_md_preq ≡ sm.rcvd_md_timestamp_receive_md_preq
  pub state_eq : s.state ≡ sm.state
  pub last_eq : s.last_state ≡ sm.last_state
  pub head_lt : s.list_head_prop_time < max_length
  pub tail_lt : s.list_tail_prop_time < max_length
  pub ingress_length :
      length s.pdelay_resp_event_ingress_timestamps ≡ length sm.pdelay_resp_event_ingress_timestamps
  pub responder_length :
      length s.corrected_responder_event_timestamps ≡ length sm.corrected_responder_event_timestamps

add-Keeps :
    (sm : MdPdelayReqSm)
    → sm.list_head_prop_time < max_length
    → Keeps sm (md_pdelay_add_resp_and_resp_follow_up_timestamp sm)
unfolding md_pdelay_add_resp_and_resp_follow_up_timestamp
add-Keeps sm h =
    let next = (sm.list_tail_prop_time + 1) % max_length in
    ground (
      arith,
      length-set sm.pdelay_resp_event_ingress_timestamps next sm.t4,
      length-set sm.corrected_responder_event_timestamps next sm.t3,
    )

judge_response-Keeps :
    (resp : PtpMsgPdelayResp) (sm s : MdPdelayReqSm) → Keeps sm s → Keeps sm (judge_response resp s)
unfolding judge_response
judge_response-Keeps resp sm s k = ground arith

update_mean_link_delay-Keeps :
    (sm s s' : MdPdelayReqSm) → Keeps sm s → update_mean_link_delay s ≡ some s' → Keeps sm s'
unfolding update_mean_link_delay
update_mean_link_delay-Keeps sm s s' k e = ground arith

-- The time of arrival that is added last is that of the first entry of the list: the divisor of the
-- ratio is 0.
abbrev pub IsStale : MdPdelayReqSm → Type 0
IsStale sm =
    ((sm.list_tail_prop_time == sm.list_head_prop_time) ≡ false)
    × (number (
          limbs (
            uscaledns_subtract
              (stamp sm.pdelay_resp_event_ingress_timestamps sm.list_tail_prop_time)
              (stamp sm.pdelay_resp_event_ingress_timestamps sm.list_head_prop_time)))
        ≡ 0)

-- The outcome of a measurement of `sm`.
abbrev pub Measured : MdPdelayReqSm → Outcome → Type 0
Measured sm (done s frames) = Keeps sm s
Measured sm (exit_failure s) = compute_prop_time s ≡ none
Measured sm (stuck s) = IsStale s
Measured sm undefined = ⊥
Measured sm out_of_fuel = ⊥

update_rate_ratio-Keeps :
    (sm s s' : MdPdelayReqSm) → Keeps sm s → update_rate_ratio s ≡ some s' → Keeps sm s'
unfolding update_rate_ratio compute_pdelay_rate_ratio
update_rate_ratio-Keeps sm s s' k e = ground arith

-- The ratio fails only on a stale time of arrival.
update_rate_ratio-IsStale : (s : MdPdelayReqSm) → update_rate_ratio s ≡ none → IsStale s
unfolding update_rate_ratio compute_pdelay_rate_ratio
update_rate_ratio-IsStale s e = ground (
  arith,
  uscaledns_div-none
      (uscaledns_subtract (stamp s.corrected_responder_event_timestamps s.list_tail_prop_time)
        (stamp s.corrected_responder_event_timestamps s.list_head_prop_time))
      (uscaledns_subtract (stamp s.pdelay_resp_event_ingress_timestamps s.list_tail_prop_time)
        (stamp s.pdelay_resp_event_ingress_timestamps s.list_head_prop_time)),
)

update_mean_link_delay-none :
    (s : MdPdelayReqSm) → update_mean_link_delay s ≡ none → compute_prop_time s ≡ none
unfolding update_mean_link_delay
update_mean_link_delay-none s e = ground arith

measure-Measured :
    (sm : MdPdelayReqSm)
    → sm.list_head_prop_time < max_length
    → is_some sm.rcvd_pdelay_resp_ptr ≡ true
    → Measured sm (measure sm)
unfolding measure
measure-Measured sm h r =
    let added = md_pdelay_add_resp_and_resp_follow_up_timestamp sm in
    elim (Option-cases (update_rate_ratio added)) [
      | inl c ↦ rw (measure, c) (update_rate_ratio-IsStale added c)
      | inr (s, c) ↦
          let k = update_rate_ratio-Keeps sm added s (add-Keeps sm h) c in
          elim (Option-cases (update_mean_link_delay s)) [
            | inl e ↦ rw (measure, c) (rw e (update_mean_link_delay-none s e))
            | inr (s', e) ↦
                let k' = update_mean_link_delay-Keeps sm s s' k e in
                elim (Option-cases s'.rcvd_pdelay_resp_ptr) [
                  | inl n ↦ absurd (ground arith)
                  | inr (resp, j) ↦
                      rw (measure, c) (rw e (rw j (judge_response-Keeps resp sm _ (ground arith))))
                ]
          ]
    ]

pub interval_action-Measured :
    (asymmetry : Bool) (sm : MdPdelayReqSm)
    → sm.list_head_prop_time < max_length
    → sm.list_tail_prop_time < max_length
    → is_some sm.rcvd_pdelay_resp_ptr ≡ true
    → Measured sm (if asymmetry then done sm [] else measure sm)
interval_action-Measured true sm h t r = ground arith
interval_action-Measured false sm h t r = measure-Measured sm h r
