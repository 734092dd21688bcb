-- ===== src/Pdelay/Request/Safety.antt =====
-- A run of the MDPdelayReq machine ends, follows no pointer that is not set, and leaves a valid machine
-- (time_sync/md_pdelay_req_sm.c).
use ziggo_caa_s_switch.Prelude.{
  ℕ, ◌<◌, ◌≡◌, ◌⊎◌, inl, inr, refl, Bool, true, false, none, if◌then◌else◌, arith, Bool-cases,
}
use ziggo_caa_s_switch.Ptp.ScaledNs.{UScaledNs}
use ziggo_caa_s_switch.Pdelay.Request.{
  State, init, not_enabled, initial_send_pdelay_req, waiting_for_pdelay_resp,
  waiting_for_pdelay_resp_follow_up, waiting_for_pdelay_interval_timer, reset, send_pdelay_req,
  before_init, compute_prop_time, MdPdelayReqSm, Outcome, done, exit_failure, stuck, undefined,
  out_of_fuel, not_enabled_state_transition, initial_send_pdelay_req_state_transition, reset_action,
  send_pdelay_req_state_transition,
}
use ziggo_caa_s_switch.Pdelay.Request.Actions.{
  initial_send_pdelay_req_action, send_pdelay_req_action, waiting_for_pdelay_resp_state_transition,
  waiting_for_pdelay_resp_follow_up_state_transition, is_repeated, is_followed_up, answered,
  reset_state_transition, waiting_for_pdelay_interval_timer_state_transition, free_messages,
  release, leave_interval, waiting_for_pdelay_interval_timer_action,
}
use ziggo_caa_s_switch.Pdelay.Request.Machine.{run_state, round}
use ziggo_caa_s_switch.Pdelay.Request.Validity.{Fits, Fits-change, IsValid, is_entry}
use ziggo_caa_s_switch.Pdelay.Request.Measuring.{IsStale, Measured, interval_action-Measured}

-- How many more rounds there may be.
abbrev pub rank : State → Bool → ℕ
rank init sent = 12
rank not_enabled sent = 11
rank initial_send_pdelay_req sent = 10
rank waiting_for_pdelay_resp sent = 6
rank waiting_for_pdelay_resp_follow_up sent = 5
rank waiting_for_pdelay_interval_timer sent = 4
rank reset sent = 4
rank send_pdelay_req sent = if sent then 8 else 2
rank before_init sent = 0

-- A round ends the process, or leaves a valid machine that rests or comes nearer to rest.
abbrev pub Sound : ℕ → Outcome → Type 0
Sound n (done sm frames) =
    IsValid sm
    × ((sm.state ≡ sm.last_state) ⊎ (rank sm.state sm.rcvd_md_timestamp_receive_md_preq < n))
Sound n (exit_failure s) = compute_prop_time s ≡ none
Sound n (stuck s) = IsStale s
Sound n undefined = ⊥
Sound n out_of_fuel = ⊥

module _ (random : ℕ) (ts : UScaledNs) where
  round_init :
      (l : State) (sm : MdPdelayReqSm)
      → Fits init l sm
      → sm.last_state ≡ init
      → Sound 12 (run_state random ts init (is_entry init l) sm)
  unfolding run_state
  round_init l sm v e = ground arith

  round_not_enabled :
      (l : State) (sm : MdPdelayReqSm)
      → Fits not_enabled l sm
      → sm.last_state ≡ not_enabled
      → Sound 11 (run_state random ts not_enabled (is_entry not_enabled l) sm)
  unfolding run_state not_enabled_state_transition
  round_not_enabled l sm v e = ground arith

  round_initial :
      (l : State) (sm : MdPdelayReqSm)
      → Fits initial_send_pdelay_req l sm
      → sm.last_state ≡ initial_send_pdelay_req
      → Sound 10
          (run_state random ts initial_send_pdelay_req (is_entry initial_send_pdelay_req l) sm)
  unfolding run_state initial_send_pdelay_req_action initial_send_pdelay_req_state_transition
  round_initial l sm v e = ground arith

  round_reset :
      (l : State) (sm : MdPdelayReqSm)
      → Fits reset l sm
      → sm.last_state ≡ reset
      → Sound 4 (run_state random ts reset (is_entry reset l) sm)
  unfolding run_state reset_action reset_state_transition
  round_reset l sm v e = ground arith

  round_send :
      (l : State) (sm : MdPdelayReqSm)
      → Fits send_pdelay_req l sm
      → sm.last_state ≡ send_pdelay_req
      → Sound
          (rank send_pdelay_req sm.rcvd_md_timestamp_receive_md_preq)
          (run_state random ts send_pdelay_req (is_entry send_pdelay_req l) sm)
  unfolding run_state send_pdelay_req_action send_pdelay_req_state_transition
  round_send l sm v e = ground arith

  round_waiting :
      (l : State) (sm : MdPdelayReqSm)
      → Fits waiting_for_pdelay_resp l sm
      → sm.last_state ≡ waiting_for_pdelay_resp
      → Sound 6
          (run_state random ts waiting_for_pdelay_resp (is_entry waiting_for_pdelay_resp l) sm)
  unfolding run_state waiting_for_pdelay_resp_state_transition
  round_waiting l sm v e = ground arith

  round_follow_up :
      (l : State) (sm : MdPdelayReqSm)
      → Fits waiting_for_pdelay_resp_follow_up l sm
      → sm.last_state ≡ waiting_for_pdelay_resp_follow_up
      → Sound 5 (
          run_state random ts waiting_for_pdelay_resp_follow_up
            (is_entry waiting_for_pdelay_resp_follow_up l)
            sm)
  unfolding run_state waiting_for_pdelay_resp_follow_up_state_transition is_repeated is_followed_up
      answered
  round_follow_up l sm v e = ground arith

  -- The messages are freed, and the machine waits for the end of the interval or sends at once.
  leave-Sound :
      (l : State) (sm : MdPdelayReqSm) (o : Outcome)
      → Fits waiting_for_pdelay_interval_timer l sm
      → is_entry waiting_for_pdelay_interval_timer l ≡ true
      → sm.last_state ≡ waiting_for_pdelay_interval_timer
      → Measured (record sm { rcvd_pdelay_resp_follow_up = false; lost_responses = 0 }) o
      → Sound 4 (leave_interval ts (release o))
  unfolding leave_interval release free_messages waiting_for_pdelay_interval_timer_state_transition
  leave-Sound l sm (done s frames) v n e k = ground arith
  leave-Sound l sm (exit_failure s) v n e k = k
  leave-Sound l sm (stuck s) v n e k = k
  leave-Sound l sm undefined v n e k = k
  leave-Sound l sm out_of_fuel v n e k = k

  round_interval :
      (l : State) (sm : MdPdelayReqSm)
      → Fits waiting_for_pdelay_interval_timer l sm
      → sm.last_state ≡ waiting_for_pdelay_interval_timer
      → Sound 4 (
          run_state random ts waiting_for_pdelay_interval_timer
            (is_entry waiting_for_pdelay_interval_timer l)
            sm)
  unfolding run_state waiting_for_pdelay_interval_timer_action
      waiting_for_pdelay_interval_timer_state_transition
  round_interval l sm v e =
      let s = record sm { rcvd_pdelay_resp_follow_up = false; lost_responses = 0 } in
      elim (Bool-cases (is_entry waiting_for_pdelay_interval_timer l)) [
        | inl n ↦
            rw (n, run_state, waiting_for_pdelay_interval_timer_action)
              (leave-Sound l sm _ v n e (
                interval_action-Measured s.port.asymmetry_measurement_mode s v.head_lt v.tail_lt
                  (v.answered n)))
        | inr n ↦ rw n (ground arith)
      ]

  round_before_init :
      (l : State) (sm : MdPdelayReqSm)
      → Fits before_init l sm
      → sm.last_state ≡ before_init
      → sm.state ≡ before_init
      → Sound 0 (run_state random ts before_init (is_entry before_init l) sm)
  unfolding run_state
  round_before_init l sm v e f = ground arith

  run_state-Sound :
      (s l : State) (sm : MdPdelayReqSm)
      → Fits s l sm
      → sm.last_state ≡ s
      → sm.state ≡ s
      → Sound
          (rank s sm.rcvd_md_timestamp_receive_md_preq)
          (run_state random ts s (is_entry s l) sm)
  run_state-Sound init l sm v e f = round_init l sm v e
  run_state-Sound not_enabled l sm v e f = round_not_enabled l sm v e
  run_state-Sound initial_send_pdelay_req l sm v e f = round_initial l sm v e
  run_state-Sound waiting_for_pdelay_resp l sm v e f = round_waiting l sm v e
  run_state-Sound waiting_for_pdelay_resp_follow_up l sm v e f = round_follow_up l sm v e
  run_state-Sound waiting_for_pdelay_interval_timer l sm v e f = round_interval l sm v e
  run_state-Sound reset l sm v e f = round_reset l sm v e
  run_state-Sound send_pdelay_req l sm v e f = round_send l sm v e
  run_state-Sound before_init l sm v e f = round_before_init l sm v e f

  pub round-Sound :
      (sm : MdPdelayReqSm)
      → IsValid sm
      → Sound (rank sm.state sm.rcvd_md_timestamp_receive_md_preq) (round random ts sm)
  unfolding round
  round-Sound sm v =
      run_state-Sound sm.state sm.last_state (record sm { last_state = sm.state })
        (Fits-change sm sm.state sm.state sm.port sm.instance_global sm.md_entity sm.t1 sm.t2 sm.t3
          sm.t4 v)
        refl refl
