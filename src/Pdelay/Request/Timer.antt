-- ===== src/Pdelay/Request/Timer.antt =====
-- The end of an interval makes the MDPdelayReq machine send its next request
-- (time_sync/md_pdelay_req_sm.c).
use ziggo_caa_s_switch.Prelude.{
  ℕ, ◌+◌, ◌≤◌, ◌≡◌, ◌∙◌, ap, sym, true, false, [], nonneg, arith, subst,
}
use ziggo_caa_s_switch.Ptp.ScaledNs.{UScaledNs, uscaledns_subtract, uscaledns_compare}
use ziggo_caa_s_switch.Ptp.ScaledNs.Value.{
  InWidth, value, value-uscaledns_subtract, uscaledns_subtract-InWidth, uscaledns_compare-value,
}
use ziggo_caa_s_switch.Pdelay.Request.{State, MdPdelayReqSm, go, all_state_transition}
use ziggo_caa_s_switch.Pdelay.Request.Machine.{run_fuel, run_loop, md_pdelay_req_sm_run}
use ziggo_caa_s_switch.Pdelay.Request.Validity.{IsValid}
use ziggo_caa_s_switch.Pdelay.Request.Steps.{at}
use ziggo_caa_s_switch.Pdelay.Request.Late.{
  IsWaiting, Requests, all_state_transition-stay, loop_late,
}

-- The times of the machine fit their fields, and the interval has passed since the last request.
pub record HasPassed (ts timer interval : UScaledNs) : Type 0 where
  pub now_fits : InWidth ts
  pub timer_fits : InWidth timer
  pub interval_fits : InWidth interval
  pub passed : value timer + value interval ≤ value ts

is_late :
    (ts timer interval : UScaledNs)
    → HasPassed ts timer interval
    → nonneg (uscaledns_compare (uscaledns_subtract ts timer) interval) ≡ true
is_late ts timer interval h =
    let w = uscaledns_subtract-InWidth ts timer h.now_fits h.timer_fits in
    let v = value-uscaledns_subtract ts timer h.now_fits h.timer_fits in
    rw (uscaledns_compare-value (uscaledns_subtract ts timer) interval w h.interval_fits)
      (ground (arith, v))

no_stamp :
    (sm : MdPdelayReqSm)
    → IsValid sm
    → sm.last_state ≡ sm.state
    → IsWaiting sm.state
    → sm.rcvd_md_timestamp_receive_md_preq ≡ false
no_stamp sm v l w = ground arith

-- Once the interval has passed since the last request, the next run of a valid machine that waits for a
-- response, a follow-up or the end of the interval sends the next request and waits for its time
-- stamp: its frame carries the next sequence id modulo 2 ^ 16, and the timer starts again. The port
-- is enabled and operational.
pub md_pdelay_req_sm_run-Requests :
    (random : ℕ) (ts : UScaledNs) (sm : MdPdelayReqSm)
    → IsValid sm
    → sm.last_state ≡ sm.state
    → IsWaiting sm.state
    → sm.instance_global.begin ≡ false
    → sm.port.port_oper ≡ true
    → sm.port_enabled0 ≡ true
    → HasPassed ts sm.pdelay_interval_timer sm.md_entity.pdelay_req_interval
    → Requests ts sm (md_pdelay_req_sm_run random ts sm)
unfolding md_pdelay_req_sm_run
md_pdelay_req_sm_run-Requests random ts sm v l w b o p h =
    let stay : all_state_transition sm ≡ sm.state = all_state_transition-stay sm b o p in
    let same : go (all_state_transition sm) sm ≡ at sm.state sm.state sm =
      ap (λ (x : State). go x sm) stay ∙ ap (λ (x : State). record sm { last_state = x }) l in
    subst (λ x. Requests ts sm (run_loop random ts run_fuel x [])) (sym same)
      (loop_late random ts sm.state sm w (no_stamp sm v l w)
        (is_late ts sm.pdelay_interval_timer sm.md_entity.pdelay_req_interval h))
