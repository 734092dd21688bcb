-- ===== src/Pdelay/Request/Reachable.antt =====
-- The MDPdelayReq machine in its environment: the events that the main loop hands to it, and what they
-- reach (time_sync/md_pdelay_req_sm.c, time_sync_main_loop.c).
use ziggo_caa_s_switch.Prelude.{
  ℕ, zero, suc, ◌<◌, ◌≡◌, ◌⊎◌, inl, inr, refl, Bool, true, false, List, [], ◌++◌, none, some, ◌||◌,
  not, ◌==◌, arith, length, Bool-cases, subst,
}
use ziggo_caa_s_switch.Ptp.ScaledNs.{UScaledNs, uscaledns_ptpmsgtimestamp}
use ziggo_caa_s_switch.Ptp.Globals.{PerPortGlobal, PerPtpInstanceGlobal, MdEntityGlobal}
use ziggo_caa_s_switch.Frame.{PtpFrameHeader}
use ziggo_caa_s_switch.Pdelay.Messages.{PtpMsgPdelayResp, PtpMsgPdelayRespFollowUp, TsuTimestamp}
use ziggo_caa_s_switch.Pdelay.Request.{
  State, ordinal, MdPdelayReqSm, go, Outcome, done, exit_failure, stuck, undefined, out_of_fuel,
  all_state_transition, compute_prop_time, max_length,
}
use ziggo_caa_s_switch.Pdelay.Request.Machine.{
  run_fuel, round, run_loop, md_pdelay_req_sm_run, md_pdelay_req_sm_txts,
  md_pdelay_req_sm_recv_resp, md_pdelay_req_sm_recv_resp_follow_up, init_md_pdelay_req_sm,
}
use ziggo_caa_s_switch.Pdelay.Request.Validity.{Fits, Fits-change, IsValid, is_entry, same_sequence}
use ziggo_caa_s_switch.Pdelay.Request.Measuring.{IsStale}
use ziggo_caa_s_switch.Pdelay.Request.Safety.{rank, Sound, round-Sound}

abbrev pub IsResting : MdPdelayReqSm → Type 0
IsResting sm = is_entry sm.state sm.last_state ≡ false

-- The machine is valid and at rest, the process ends on a negative delay, or the division of the ratio
-- does not return, on a stale time of arrival.
abbrev pub Ends : Outcome → Type 0
Ends (done sm frames) = IsValid sm × IsResting sm
Ends (exit_failure s) = compute_prop_time s ≡ none
Ends (stuck s) = IsStale s
Ends undefined = ⊥
Ends out_of_fuel = ⊥

Sound-cases :
    (n : ℕ) (o : Outcome)
    → Sound n o
    → ((s : MdPdelayReqSm) × (o ≡ exit_failure s) × (compute_prop_time s ≡ none))
      ⊎ ((s : MdPdelayReqSm) × (o ≡ stuck s) × IsStale s)
      ⊎ ((sm : MdPdelayReqSm) × (frames : List (ℕ × PtpFrameHeader)) × (o ≡ done sm frames)
          × Sound n (done sm frames))
Sound-cases n (done sm frames) h = inr (inr (sm, frames, refl, h))
Sound-cases n (exit_failure s) h = inl (s, refl, h)
Sound-cases n (stuck s) h = inr (inl (s, refl, h))
Sound-cases n undefined h = absurd h
Sound-cases n out_of_fuel h = absurd h

IsResting-of_eq : (sm : MdPdelayReqSm) → sm.state ≡ sm.last_state → IsResting sm
IsResting-of_eq sm e = rw e (ground arith)

rank_lt : (s : State) (sent : Bool) → rank s sent < run_fuel
rank_lt s sent = ground arith

all_state_transition-Fits :
    (sm : MdPdelayReqSm) → IsValid sm → Fits (all_state_transition sm) sm.last_state sm
unfolding all_state_transition
all_state_transition-Fits sm v =
    elim (Bool-cases (sm.instance_global.begin || not sm.port.port_oper || not sm.port_enabled0)) [
      | inl e ↦ rw (all_state_transition, e) (ground arith)
      | inr e ↦ rw (all_state_transition, e) v
    ]

stamped-IsValid :
    (t : UScaledNs) (sm : MdPdelayReqSm)
    → IsValid sm
    → ((ordinal sm.state == 7) || (ordinal sm.state == 2)) ≡ true
    → IsValid (record sm { t1 = t; rcvd_md_timestamp_receive_md_preq = true })
stamped-IsValid t sm v e = ground arith

followed-IsValid :
    (f : PtpMsgPdelayRespFollowUp) (t : UScaledNs) (sm : MdPdelayReqSm)
    → IsValid sm
    → IsValid (record sm {
      rcvd_pdelay_resp_follow_up = true;
      rcvd_pdelay_resp_follow_up_ptr = some f;
      t3 = t;
    })
followed-IsValid f t sm v = ground arith

-- What the main loop hands to the machine: the passing of time, the time stamp of the sent request, a
-- response with its time stamp, or a follow-up.
pub data Event : Type 0 where
  tick : Event
  txts : TsuTimestamp → Event
  resp : TsuTimestamp → PtpMsgPdelayResp → Event
  resp_follow_up : PtpMsgPdelayRespFollowUp → Event

-- While the machine waits for a follow-up, a second response has the sequence id of the request.
abbrev pub IsExpected : MdPdelayReqSm → Event → Type 0
IsExpected sm (resp stamp r) =
    (ordinal sm.state == 4) ≡ true → same_sequence (some r) sm.tx_pdelay_req_ptr ≡ true
IsExpected sm _ = Unit

answered-IsValid :
    (r : PtpMsgPdelayResp) (t : UScaledNs) (sm : MdPdelayReqSm)
    → IsValid sm
    → IsResting sm
    → ((ordinal sm.state == 4) ≡ true → same_sequence (some r) sm.tx_pdelay_req_ptr ≡ true)
    → IsValid (record sm { rcvd_pdelay_resp = true; rcvd_pdelay_resp_ptr = some r; t2 = t })
answered-IsValid r t sm v rest x = ground arith

module _ (random : ℕ) (ts : UScaledNs) where
  run_loop-Ends :
      (fuel : ℕ) (sm : MdPdelayReqSm) (sent : List (ℕ × PtpFrameHeader))
      → IsValid sm
      → rank sm.state sm.rcvd_md_timestamp_receive_md_preq < fuel
      → Ends (run_loop random ts fuel sm sent)
  unfolding run_loop
  run_loop-Ends zero sm sent v h = absurd (omega arith)
  run_loop-Ends (suc fuel) sm sent v h =
      elim (Sound-cases _ (round random ts sm) (round-Sound random ts sm v)) [
        | inl (s, e, negative) ↦ rw (run_loop, e) negative
        | inr (inl (s, e, stale)) ↦ rw (run_loop, e) stale
        | inr (inr (s, frames, e, (valid, near))) ↦
            let rest = run_loop-Ends fuel s (sent ++ frames) valid in
            elim (Bool-cases (ordinal s.state == ordinal s.last_state)) [
              | inl stop ↦ rw (run_loop, e) (rw stop (valid, ground arith))
              | inr more ↦ rw (run_loop, e) (rw more (rest (ground arith)))
            ]
      ]

  run-Ends : (sm : MdPdelayReqSm) → IsValid sm → Ends (md_pdelay_req_sm_run random ts sm)
  unfolding md_pdelay_req_sm_run
  run-Ends sm v =
      let s = all_state_transition sm in
      let f =
        Fits-change sm s sm.last_state sm.port sm.instance_global sm.md_entity sm.t1 sm.t2 sm.t3
          sm.t4 in
      run_loop-Ends run_fuel (go s sm) [] (f (all_state_transition-Fits sm v)) (rank_lt s _)

  txts-Ends :
      (stamp : TsuTimestamp) (sm : MdPdelayReqSm)
      → IsValid sm
      → IsResting sm
      → Ends (md_pdelay_req_sm_txts random ts stamp sm)
  unfolding md_pdelay_req_sm_txts
  txts-Ends stamp sm v r = elim (Bool-cases ((ordinal sm.state == 7) || (ordinal sm.state == 2))) [
    | inr n ↦ rw (md_pdelay_req_sm_txts, n) (v, r)
    | inl y ↦ elim (Bool-cases (stamp.sequence_id == sm.pdelay_req_sequence_id)) [
      | inr n ↦ rw (md_pdelay_req_sm_txts, y) (rw n (v, r))
      | inl e ↦
          rw (md_pdelay_req_sm_txts, y)
            (rw e (
              run-Ends (record sm { t1 = stamp.ts; rcvd_md_timestamp_receive_md_preq = true })
                (stamped-IsValid stamp.ts sm v y)))
    ]
  ]

  recv_resp-Ends :
      (stamp : TsuTimestamp) (r : PtpMsgPdelayResp) (sm : MdPdelayReqSm)
      → IsValid sm
      → IsResting sm
      → IsExpected sm (resp stamp r)
      → Ends (md_pdelay_req_sm_recv_resp random ts stamp r sm)
  unfolding md_pdelay_req_sm_recv_resp
  recv_resp-Ends stamp r sm v rest x = stamped (md_pdelay_req_sm_run random ts _) (
      run-Ends _
        (answered-IsValid r (uscaledns_ptpmsgtimestamp r.request_receipt_timestamp) sm v rest x))
    where
      stamped :
          (o : Outcome)
          → Ends o
          → Ends (elim o [
            | done s frames ↦ done (record s { t4 = stamp.ts }) frames
            | exit_failure s ↦ exit_failure s
            | stuck s ↦ stuck s
            | undefined ↦ undefined
            | out_of_fuel ↦ out_of_fuel
          ])
      stamped (done s frames) (w, e) = (
        Fits-change s s.state s.last_state s.port s.instance_global s.md_entity s.t1 s.t2 s.t3
            stamp.ts w,
        e,
      )
      stamped (exit_failure s) h = h
      stamped (stuck s) h = h
      stamped undefined h = h
      stamped out_of_fuel h = h

  -- An event, by the call that the main loop makes.
  unfoldable pub handle : Event → MdPdelayReqSm → Outcome
  handle tick sm = md_pdelay_req_sm_run random ts sm
  handle (txts stamp) sm = md_pdelay_req_sm_txts random ts stamp sm
  handle (resp stamp r) sm = md_pdelay_req_sm_recv_resp random ts stamp r sm
  handle (resp_follow_up f) sm = md_pdelay_req_sm_recv_resp_follow_up random ts f sm

  handle-Ends :
      (e : Event) (sm : MdPdelayReqSm)
      → IsValid sm
      → IsResting sm
      → IsExpected sm e
      → Ends (handle e sm)
  unfolding handle md_pdelay_req_sm_recv_resp_follow_up
  handle-Ends tick sm v r x = run-Ends sm v
  handle-Ends (txts stamp) sm v r x = txts-Ends stamp sm v r
  handle-Ends (resp stamp a) sm v r x = recv_resp-Ends stamp a sm v r x
  handle-Ends (resp_follow_up f) sm v r x =
      run-Ends _ (followed-IsValid f (uscaledns_ptpmsgtimestamp f.response_origin_timestamp) sm v)

-- What the memory of the machine reaches: from its initialisation, by the other machines' writes to
-- what they share, and by the events of the main loop.
pub data Reachable : MdPdelayReqSm → Type 0 where
  started :
      (random : ℕ) (memory : MdPdelayReqSm) {sm : MdPdelayReqSm}
      {frames : List (ℕ × PtpFrameHeader)}
      → length memory.pdelay_resp_event_ingress_timestamps ≡ max_length
      → length memory.corrected_responder_event_timestamps ≡ max_length
      → init_md_pdelay_req_sm random memory ≡ done sm frames
      → Reachable sm
  shared :
      (p : PerPortGlobal) (g : PerPtpInstanceGlobal) (m : MdEntityGlobal) {sm : MdPdelayReqSm}
      → Reachable sm
      → Reachable (record sm { port = p; instance_global = g; md_entity = m })
  handled :
      (random : ℕ) (ts : UScaledNs) (e : Event) {sm s : MdPdelayReqSm}
      {frames : List (ℕ × PtpFrameHeader)}
      → Reachable sm
      → IsExpected sm e
      → handle random ts e sm ≡ done s frames
      → Reachable s

init-Ends :
    (random : ℕ) (memory : MdPdelayReqSm)
    → length memory.pdelay_resp_event_ingress_timestamps ≡ max_length
    → length memory.corrected_responder_event_timestamps ≡ max_length
    → Ends (init_md_pdelay_req_sm random memory)
unfolding init_md_pdelay_req_sm
init-Ends random memory h k = run-Ends random _ _ (ground arith)

Reachable-IsValid : {sm : MdPdelayReqSm} → Reachable sm → IsValid sm × IsResting sm
Reachable-IsValid (started random memory h k e) = subst Ends e (init-Ends random memory h k)
Reachable-IsValid (shared p g m {sm} r) =
    let (v, rest) = Reachable-IsValid r in
    (Fits-change sm sm.state sm.last_state p g m sm.t1 sm.t2 sm.t3 sm.t4 v, rest)
Reachable-IsValid (handled random ts e {sm} r x done_eq) =
    let (v, rest) = Reachable-IsValid r in subst Ends done_eq (handle-Ends random ts e sm v rest x)

-- Whatever the order of the events and the writes to the shared state since the initialisation, as
-- long as a response that comes during the wait for a follow-up has the sequence id of the request:
-- the next event follows no pointer that is not set or freed, needs no more rounds than the fuel,
-- and leaves the machine valid and at rest again, with two exceptions. The process exits only where
-- `compute_prop_time` of the machine finds a negative delay. The division of the neighbour's rate
-- ratio does not return only where the time of arrival that the machine has just added to its list
-- is that of the first entry of the list, so that the divisor is 0.
pub Reachable-Ends :
    (random : ℕ) (ts : UScaledNs) (e : Event) {sm : MdPdelayReqSm}
    → Reachable sm
    → IsExpected sm e
    → Ends (handle random ts e sm)
Reachable-Ends random ts e {sm} r x =
    let (v, rest) = Reachable-IsValid r in handle-Ends random ts e sm v rest x
