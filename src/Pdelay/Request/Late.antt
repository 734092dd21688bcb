-- ===== src/Pdelay/Request/Late.antt =====
-- The rounds of the MDPdelayReq machine once its interval has passed (time_sync/md_pdelay_req_sm.c).
use ziggo_caa_s_switch.Prelude.{
  ℕ, suc, ◌+◌, ◌≡◌, ◌∙◌, refl, ap, ◌⊎◌, inl, inr, true, false, ◌==◌, [], ◌∷◌, nonneg, arith, u16,
}
use ziggo_caa_s_switch.Ptp.ScaledNs.{UScaledNs, uscaledns_subtract, uscaledns_compare}
use ziggo_caa_s_switch.Ptp.Globals.{PerPortGlobal}
use ziggo_caa_s_switch.Frame.{
  PtpFrameHeader, get_ptp_msg_header, set_ptp_frame_header, ptp_msg_header_template,
}
use ziggo_caa_s_switch.Frame.RoundTrip.{htons-roundtrip}
use ziggo_caa_s_switch.Pdelay.Request.{
  State, waiting_for_pdelay_resp, waiting_for_pdelay_resp_follow_up,
  waiting_for_pdelay_interval_timer, reset, send_pdelay_req, ordinal, MdPdelayReqSm, Outcome, done,
  all_state_transition, reset_action, send_pdelay_req_state_transition, set_pdelay_req,
  tx_pdelay_req,
}
use ziggo_caa_s_switch.Pdelay.Request.Actions.{
  is_due, waiting_for_pdelay_resp_state_transition,
  waiting_for_pdelay_resp_follow_up_state_transition, reset_state_transition,
  waiting_for_pdelay_interval_timer_state_transition, send_pdelay_req_action, frame_of,
}
use ziggo_caa_s_switch.Pdelay.Request.Machine.{run_fuel, run_state, round, run_loop}
use ziggo_caa_s_switch.Pdelay.Request.Steps.{at, loop_stop, loop_more}

-- What the entry to RESET leaves alone.
record Kept (sm s : MdPdelayReqSm) : Type 0 where
  sent : s.rcvd_md_timestamp_receive_md_preq ≡ sm.rcvd_md_timestamp_receive_md_preq
  sequence : s.pdelay_req_sequence_id ≡ sm.pdelay_req_sequence_id
  timer : s.pdelay_interval_timer ≡ sm.pdelay_interval_timer
  interval : s.md_entity.pdelay_req_interval ≡ sm.md_entity.pdelay_req_interval
  port_eq : s.port ≡ sm.port

reset_action-Kept : (sm : MdPdelayReqSm) → Kept sm (reset_action sm)
unfolding reset_action
reset_action-Kept sm = ground arith

reset_action-last : (sm : MdPdelayReqSm) → (reset_action sm).last_state ≡ sm.last_state
unfolding reset_action
reset_action-last sm = ground arith

Kept-refl : (sm : MdPdelayReqSm) → Kept sm sm
Kept-refl sm = record {
  sent = refl;
  sequence = refl;
  timer = refl;
  interval = refl;
  port_eq = refl;
}

pub all_state_transition-stay :
    (sm : MdPdelayReqSm)
    → sm.instance_global.begin ≡ false
    → sm.port.port_oper ≡ true
    → sm.port_enabled0 ≡ true
    → all_state_transition sm ≡ sm.state
unfolding all_state_transition
all_state_transition-stay sm b o p = ground arith

-- The states in which the machine waits, behind its request.
abbrev pub IsWaiting : State → Type 0
IsWaiting s =
    (s ≡ waiting_for_pdelay_resp)
    ⊎ (s ≡ waiting_for_pdelay_resp_follow_up)
    ⊎ (s ≡ reset)
    ⊎ (s ≡ waiting_for_pdelay_interval_timer)

-- The outcome is the next request, from the machine that rests behind it, and its frame.
abbrev pub Requests : UScaledNs → MdPdelayReqSm → Outcome → Type 0
Requests ts sm o =
    (s : MdPdelayReqSm) × (frame : PtpFrameHeader) × (o ≡ done s ((sm.port.this_port, frame) ∷ []))
    × (s.state ≡ send_pdelay_req)
    × (s.last_state ≡ send_pdelay_req)
    × (s.pdelay_req_sequence_id ≡ u16 (sm.pdelay_req_sequence_id + 1))
    × ((get_ptp_msg_header frame).sequence_id ≡ u16 (sm.pdelay_req_sequence_id + 1))
    × (s.pdelay_interval_timer ≡ ts)

module _ (random : ℕ) (ts : UScaledNs) where
  round_send :
      (l : State) (x : MdPdelayReqSm)
      → (7 == ordinal l) ≡ false
      → x.rcvd_md_timestamp_receive_md_preq ≡ false
      → round random ts (at send_pdelay_req l x)
        ≡ done
            (at send_pdelay_req send_pdelay_req (send_pdelay_req_action ts x))
            (frame_of (send_pdelay_req_action ts x) ∷ [])
  unfolding round run_state send_pdelay_req_state_transition send_pdelay_req_action frame_of
      set_pdelay_req tx_pdelay_req
  round_send l x n e = rw (round, run_state, n, e) refl

  -- Entered with no time stamp pending, SEND sends and stays.
  loop_send :
      (k : ℕ) (l : State) (x sm : MdPdelayReqSm)
      → (7 == ordinal l) ≡ false
      → Kept sm x
      → sm.rcvd_md_timestamp_receive_md_preq ≡ false
      → Requests ts sm (run_loop random ts (suc k) (at send_pdelay_req l x) [])
  unfolding send_pdelay_req_action frame_of set_pdelay_req tx_pdelay_req get_ptp_msg_header
      set_ptp_frame_header ptp_msg_header_template
  loop_send k l x sm n kept e =
      let s = send_pdelay_req_action ts x in
      let stop =
        loop_stop random ts k (at send_pdelay_req l x) (at send_pdelay_req send_pdelay_req s) []
          (frame_of s ∷ []) (round_send l x n (kept.sent ∙ e)) refl in
      let id : u16 (x.pdelay_req_sequence_id + 1) ≡ u16 (sm.pdelay_req_sequence_id + 1) =
        ap (λ (i : ℕ). u16 (i + 1)) kept.sequence in
      (
        at send_pdelay_req send_pdelay_req s,
        (frame_of s).1,
        stop
            ∙ ap
                (λ (p : PerPortGlobal).
                  done (at send_pdelay_req send_pdelay_req s) ((p.this_port, (frame_of s).1) ∷ []))
                kept.port_eq,
        refl,
        refl,
        id,
        htons-roundtrip (u16 (x.pdelay_req_sequence_id + 1)) (omega arith) ∙ id,
        refl,
      )

  -- The interval has passed.
  abbrev pub IsLate : MdPdelayReqSm → Type 0
  IsLate sm =
      nonneg (
        uscaledns_compare (uscaledns_subtract ts sm.pdelay_interval_timer)
          sm.md_entity.pdelay_req_interval)
      ≡ true

  round_late :
      (sm : MdPdelayReqSm)
      → IsLate sm
      → (round random ts (at waiting_for_pdelay_resp waiting_for_pdelay_resp sm)
          ≡ done (at reset waiting_for_pdelay_resp sm) [])
        × (round random ts
              (at waiting_for_pdelay_resp_follow_up waiting_for_pdelay_resp_follow_up sm)
            ≡ done (at reset waiting_for_pdelay_resp_follow_up sm) [])
        × (round random ts (at reset reset sm) ≡ done (at send_pdelay_req reset sm) [])
        × (round random ts
              (at waiting_for_pdelay_interval_timer waiting_for_pdelay_interval_timer sm)
            ≡ done (at send_pdelay_req waiting_for_pdelay_interval_timer sm) [])
  unfolding round run_state waiting_for_pdelay_resp_state_transition is_due
      waiting_for_pdelay_resp_follow_up_state_transition reset_state_transition
      waiting_for_pdelay_interval_timer_state_transition
  round_late sm e = (
    rw (round, run_state, waiting_for_pdelay_resp_state_transition, e) refl,
    rw (round, run_state, waiting_for_pdelay_resp_follow_up_state_transition, e) refl,
    rw (round, run_state, reset_state_transition, e) refl,
    rw (round, run_state, waiting_for_pdelay_interval_timer_state_transition, e) refl,
  )

  round_reset :
      (l : State) (sm : MdPdelayReqSm)
      → (6 == ordinal l) ≡ false
      → IsLate sm
      → round random ts (at reset l sm)
        ≡ done (at send_pdelay_req reset (reset_action (at reset reset sm))) []
  unfolding round run_state reset_state_transition is_due
  round_reset l sm n e =
      let k = reset_action-Kept (at reset reset sm) in
      rw
        (
          round,
          run_state,
          n,
          reset_state_transition,
          k.timer,
          k.interval,
          e,
          reset_action-last (at reset reset sm),
        )
        refl

  -- RESET, entered from another state, sends the next request.
  loop_reset :
      (k : ℕ) (l : State) (sm : MdPdelayReqSm)
      → (6 == ordinal l) ≡ false
      → sm.rcvd_md_timestamp_receive_md_preq ≡ false
      → IsLate sm
      → Requests ts sm (run_loop random ts (suc (suc k)) (at reset l sm) [])
  loop_reset k l sm n e late =
      let x = reset_action (at reset reset sm) in
      let w = reset_action-Kept (at reset reset sm) in
      rw
        (loop_more random ts (suc k) (at reset l sm) (at send_pdelay_req reset x) [] []
          (round_reset l sm n late) refl)
        (loop_send k reset x sm refl
          (record {
            sent = w.sent;
            sequence = w.sequence;
            timer = w.timer;
            interval = w.interval;
            port_eq = w.port_eq;
          })
          e)

  pub loop_late :
      (s : State) (sm : MdPdelayReqSm)
      → IsWaiting s
      → sm.rcvd_md_timestamp_receive_md_preq ≡ false
      → IsLate sm
      → Requests ts sm (run_loop random ts run_fuel (at s s sm) [])
  loop_late s sm (inl w) e late = rw w (
      rw
        (loop_more random ts 12 (at waiting_for_pdelay_resp waiting_for_pdelay_resp sm) _ [] []
          (round_late sm late).0 refl)
        (loop_reset 10 waiting_for_pdelay_resp sm refl e late))
  loop_late s sm (inr (inl w)) e late = rw w (
      rw
        (loop_more random ts 12
          (at waiting_for_pdelay_resp_follow_up waiting_for_pdelay_resp_follow_up sm) _ [] []
          (round_late sm late).1 refl)
        (loop_reset 10 waiting_for_pdelay_resp_follow_up sm refl e late))
  loop_late s sm (inr (inr (inl w))) e late = rw w (
      rw (loop_more random ts 12 (at reset reset sm) _ [] [] (round_late sm late).2 refl)
        (loop_send 11 reset sm sm refl (Kept-refl sm) e))
  loop_late s sm (inr (inr (inr w))) e late = rw w (
      rw
        (loop_more random ts 12
          (at waiting_for_pdelay_interval_timer waiting_for_pdelay_interval_timer sm) _ [] []
          (round_late sm late).3 refl)
        (loop_send 11 waiting_for_pdelay_interval_timer sm sm refl (Kept-refl sm) e))
