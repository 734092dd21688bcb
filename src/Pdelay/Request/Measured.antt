-- ===== src/Pdelay/Request/Measured.antt =====
-- The action at the end of the first exchange of the MDPdelayReq machine, where the port measures the
-- delay at the ratio 1.0 (time_sync/md_pdelay_req_sm.c).
use ziggo_caa_s_switch.Prelude.{ℕ, ◌≡◌, ◌∙◌, refl, ap, true, false, [], some, none, arith}
use ziggo_caa_s_switch.Ptp.ScaledNs.{UScaledNs}
use ziggo_caa_s_switch.Ptp.Doubles.{one}
use ziggo_caa_s_switch.Pdelay.Messages.{PtpMsgPdelayReq, PtpMsgPdelayResp, PtpMsgPdelayRespFollowUp}
use ziggo_caa_s_switch.Pdelay.Request.{
  waiting_for_pdelay_resp_follow_up, waiting_for_pdelay_interval_timer, MdPdelayReqSm, go, done,
  compute_prop_time, update_rate_ratio, update_mean_link_delay, judge_response,
  compute_pdelay_rate_ratio, md_pdelay_add_resp_and_resp_follow_up_timestamp,
}
use ziggo_caa_s_switch.Pdelay.Request.Actions.{
  waiting_for_pdelay_interval_timer_action, measure, release, free_messages, leave_interval,
  waiting_for_pdelay_interval_timer_state_transition, is_due,
}
use ziggo_caa_s_switch.Pdelay.Request.Machine.{run_state, round}
use ziggo_caa_s_switch.Pdelay.Request.Steps.{at, IsEarly}

-- What the judgement of a response leaves alone.
pub record Kept (sm s : MdPdelayReqSm) : Type 0 where
  pub tx : s.tx_pdelay_req_ptr ≡ sm.tx_pdelay_req_ptr
  pub resp : s.rcvd_pdelay_resp_ptr ≡ sm.rcvd_pdelay_resp_ptr
  pub fup : s.rcvd_pdelay_resp_follow_up_ptr ≡ sm.rcvd_pdelay_resp_follow_up_ptr
  pub port_eq : s.port ≡ sm.port
  pub last_eq : s.last_state ≡ sm.last_state
  pub timer : s.pdelay_interval_timer ≡ sm.pdelay_interval_timer
  pub interval : s.md_entity.pdelay_req_interval ≡ sm.md_entity.pdelay_req_interval

pub judge_response-Kept :
    (r : PtpMsgPdelayResp) (sm : MdPdelayReqSm) → Kept sm (judge_response r sm)
unfolding judge_response
judge_response-Kept r sm = ground arith

-- The machine with the two time stamps in its lists.
abbrev pub added : MdPdelayReqSm → MdPdelayReqSm
added sm =
    md_pdelay_add_resp_and_resp_follow_up_timestamp
      (record sm { rcvd_pdelay_resp_follow_up = false; lost_responses = 0 })

abbrev pub measured : UScaledNs → PtpMsgPdelayResp → MdPdelayReqSm → MdPdelayReqSm
measured d r sm = judge_response r (record (added sm) {
  port = record (added sm).port { mean_link_delay = d };
  md_entity = record (added sm).md_entity { is_measuring_delay = true };
})

abbrev pub released : UScaledNs → PtpMsgPdelayResp → MdPdelayReqSm → MdPdelayReqSm
released d r sm = record (measured d r sm) {
  tx_pdelay_req_ptr = none;
  rcvd_pdelay_resp_ptr = none;
  rcvd_pdelay_resp_follow_up_ptr = none;
}

-- A machine with all three messages and empty lists, on a port that computes the ratio and the delay.
abbrev pub holding :
    PtpMsgPdelayReq → PtpMsgPdelayResp → PtpMsgPdelayRespFollowUp → MdPdelayReqSm → MdPdelayReqSm
holding req r f sm = record sm {
  tx_pdelay_req_ptr = some req;
  rcvd_pdelay_resp_ptr = some r;
  rcvd_pdelay_resp_follow_up_ptr = some f;
  port = record sm.port {
    asymmetry_measurement_mode = false;
    neighbor_rate_ratio = one;
    compute_neighbor_rate_ratio = true;
    compute_mean_link_delay = true;
  };
  is_empty_prop_time = true;
  list_head_prop_time = 0;
  list_tail_prop_time = 63;
}

abbrev pub entered : MdPdelayReqSm → MdPdelayReqSm
entered sm = at waiting_for_pdelay_interval_timer waiting_for_pdelay_interval_timer sm

update_mean_link_delay-some :
    (s : MdPdelayReqSm) (d : UScaledNs)
    → s.port.compute_mean_link_delay ≡ true
    → compute_prop_time s ≡ some d
    → update_mean_link_delay s ≡ some (record s { port = record s.port { mean_link_delay = d } })
unfolding update_mean_link_delay
update_mean_link_delay-some s d c e = ground arith

free_messages-some :
    (s : MdPdelayReqSm) (req : PtpMsgPdelayReq) (r : PtpMsgPdelayResp)
    (f : PtpMsgPdelayRespFollowUp)
    → s.tx_pdelay_req_ptr ≡ some req
    → s.rcvd_pdelay_resp_ptr ≡ some r
    → s.rcvd_pdelay_resp_follow_up_ptr ≡ some f
    → release (done s [])
      ≡ done
          (record s {
            tx_pdelay_req_ptr = none;
            rcvd_pdelay_resp_ptr = none;
            rcvd_pdelay_resp_follow_up_ptr = none;
          })
          []
unfolding release free_messages
free_messages-some s req r f a b c = ground arith

module _ (random : ℕ) where
  -- The first entry of the lists leaves the ratio at 1.0.
  update_rate_ratio-first :
      (s : MdPdelayReqSm)
      → s.list_tail_prop_time ≡ s.list_head_prop_time
      → s.port.neighbor_rate_ratio ≡ one
      → update_rate_ratio s ≡ some s
  unfolding update_rate_ratio compute_pdelay_rate_ratio
  update_rate_ratio-first s e r = ground arith

  measure-done :
      (r : PtpMsgPdelayResp) (sm s t : MdPdelayReqSm)
      → update_rate_ratio (md_pdelay_add_resp_and_resp_follow_up_timestamp sm) ≡ some t
      → update_mean_link_delay t ≡ some s
      → s.rcvd_pdelay_resp_ptr ≡ some r
      → measure sm
        ≡ done
            (judge_response r
              (record s { md_entity = record s.md_entity { is_measuring_delay = true } }))
            []
  unfolding measure
  measure-done r sm s t c e k = ground arith

  action-else :
      (sm : MdPdelayReqSm)
      → sm.port.asymmetry_measurement_mode ≡ false
      → waiting_for_pdelay_interval_timer_action sm
        ≡ release (measure (record sm { rcvd_pdelay_resp_follow_up = false; lost_responses = 0 }))
  unfolding waiting_for_pdelay_interval_timer_action
  action-else sm e = ground arith

  action-measured :
      (req : PtpMsgPdelayReq) (r : PtpMsgPdelayResp) (f : PtpMsgPdelayRespFollowUp) (d : UScaledNs)
      (sm : MdPdelayReqSm)
      → compute_prop_time (added (holding req r f sm)) ≡ some d
      → waiting_for_pdelay_interval_timer_action (holding req r f sm)
        ≡ done (released d r (holding req r f sm)) []
  unfolding md_pdelay_add_resp_and_resp_follow_up_timestamp
  action-measured req r f d sm e =
      let x = holding req r f sm in
      let u = update_mean_link_delay-some (added x) d refl e in
      let k = judge_response-Kept r (record (added x) {
        port = record (added x).port { mean_link_delay = d };
        md_entity = record (added x).md_entity { is_measuring_delay = true };
      }) in
      action-else x refl
      ∙ ap release (measure-done r _ _ _ (update_rate_ratio-first (added x) refl refl) u refl)
      ∙ free_messages-some (measured d r x) req r f k.tx k.resp k.fup

  leave-released :
      (ts d : UScaledNs) (req : PtpMsgPdelayReq) (r : PtpMsgPdelayResp)
      (f : PtpMsgPdelayRespFollowUp) (sm : MdPdelayReqSm)
      → IsEarly random ts sm
      → leave_interval ts (done (released d r (holding req r f sm)) [])
        ≡ done (go waiting_for_pdelay_interval_timer (released d r (holding req r f sm))) []
  unfolding leave_interval waiting_for_pdelay_interval_timer_state_transition is_due
      md_pdelay_add_resp_and_resp_follow_up_timestamp
  leave-released ts d req r f sm early =
      let x = holding req r f sm in
      let k = judge_response-Kept r (record (added x) {
        port = record (added x).port { mean_link_delay = d };
        md_entity = record (added x).md_entity { is_measuring_delay = true };
      }) in
      rw
        (
          leave_interval, waiting_for_pdelay_interval_timer_state_transition, k.timer, k.interval,
          early,
        )
        refl

  pub round_measured :
      (ts d : UScaledNs) (req : PtpMsgPdelayReq) (r : PtpMsgPdelayResp)
      (f : PtpMsgPdelayRespFollowUp) (sm : MdPdelayReqSm)
      → IsEarly random ts sm
      → compute_prop_time (added (entered (holding req r f sm))) ≡ some d
      → round random ts (
          at waiting_for_pdelay_interval_timer waiting_for_pdelay_resp_follow_up
            (holding req r f sm))
        ≡ done
            (go waiting_for_pdelay_interval_timer (released d r (entered (holding req r f sm))))
            []
  unfolding round run_state
  round_measured ts d req r f sm early e =
      ap (leave_interval ts) (action-measured req r f d (entered sm) e)
      ∙ leave-released ts d req r f (entered sm) early
