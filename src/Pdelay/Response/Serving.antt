-- ===== src/Pdelay/Response/Serving.antt =====
-- How the MDPdelayResp machine answers one request, and what a second one does before the time stamp of
-- the response has come (time_sync/md_pdelay_resp_sm.c).
use ziggo_caa_s_switch.Prelude.{
  ◌≡◌, refl, ◌⊎◌, inl, inr, true, false, List, [], ◌∷◌, ◌++◌, none, some, ◌==◌, if◌then◌else◌,
  arith, subst, Bool-cases,
}
use ziggo_caa_s_switch.Ptp.ScaledNs.{UScaledNs}
use ziggo_caa_s_switch.Pdelay.Messages.{PtpMsgPdelayReq, TsuTimestamp}
use ziggo_caa_s_switch.Pdelay.Frames.{frame_pdelay_resp, frame_pdelay_resp_follow_up}
use ziggo_caa_s_switch.Pdelay.Response.{
  State, initial_waiting_for_pdelay_req, sent_pdelay_resp_waiting_for_timestamp,
  waiting_for_pdelay_req, MdPdelayRespSm, Sent, resp, follow_up, Outcome, done, undefined,
  out_of_fuel, set_pdelay_resp, set_pdelay_resp_follow_up, all_state_transition,
  initial_waiting_for_pdelay_req_state_transition, sent_pdelay_resp_action,
  sent_pdelay_resp_state_transition, waiting_for_pdelay_req_action,
  waiting_for_pdelay_req_state_transition, run_state, round, run_loop, md_pdelay_resp_sm_run,
  md_pdelay_resp_sm_txts, md_pdelay_resp_sm_recv_req,
}

-- The next call, on the machine that the last one leaves; the frames follow one another.
infixl 5 ◌then◌
abbrev pub ◌then◌ : Outcome → (MdPdelayRespSm → Outcome) → Outcome
done sm sent then f = elim (f sm) [
  | done s more ↦ done s (sent ++ more)
  | undefined ↦ undefined
  | out_of_fuel ↦ out_of_fuel
]
undefined then f = undefined
out_of_fuel then f = out_of_fuel

-- The machine that waits for a request on a port that runs, in literal fields.
abbrev idle : State → MdPdelayRespSm → MdPdelayRespSm
idle s sm = record sm {
  state = s;
  last_state = s;
  rcvd_md_timestamp_receive_md_presp = false;
  port_enabled1 = true;
  port = record sm.port { port_oper = true };
  instance_global = record sm.instance_global { begin = false };
}

-- The machine that has sent its response, with the request that it holds.
abbrev pub responded : PtpMsgPdelayReq → UScaledNs → MdPdelayRespSm → MdPdelayRespSm
responded q t2 sm = record sm {
  state = sent_pdelay_resp_waiting_for_timestamp;
  last_state = sent_pdelay_resp_waiting_for_timestamp;
  rcvd_pdelay_req = false;
  rcvd_pdelay_req_ptr = some q;
  t2 = t2;
  tx_pdelay_resp_ptr = some (set_pdelay_resp (record sm { t2 = t2 }) q);
}

recv_req-responded :
    (s : State) (q : PtpMsgPdelayReq) (stamp : TsuTimestamp) (sm : MdPdelayRespSm)
    → (s ≡ waiting_for_pdelay_req) ⊎ (s ≡ initial_waiting_for_pdelay_req)
    → md_pdelay_resp_sm_recv_req stamp q (idle s sm)
      ≡ done (responded q stamp.ts (idle s sm)) (
          resp sm.port.this_port
            (frame_pdelay_resp (set_pdelay_resp (record sm { t2 = stamp.ts }) q))
          ∷ [])
unfolding md_pdelay_resp_sm_recv_req md_pdelay_resp_sm_run all_state_transition run_loop round
    run_state waiting_for_pdelay_req_state_transition
    initial_waiting_for_pdelay_req_state_transition sent_pdelay_resp_action
    sent_pdelay_resp_state_transition set_pdelay_resp
recv_req-responded s q stamp sm (inl e) = rw e refl
recv_req-responded s q stamp sm (inr e) = rw e refl

-- The machine behind its follow-up.
abbrev pub served : UScaledNs → MdPdelayRespSm → MdPdelayRespSm
served t3 sm = record sm {
  state = waiting_for_pdelay_req;
  last_state = waiting_for_pdelay_req;
  t3 = t3;
  rcvd_md_timestamp_receive_md_presp = false;
  rcvd_pdelay_req_ptr = none;
  tx_pdelay_resp_ptr = none;
  tx_pdelay_resp_follow_up_ptr = none;
}

txts-served :
    (s : State) (q : PtpMsgPdelayReq) (t2 : UScaledNs) (stamp : TsuTimestamp) (sm : MdPdelayRespSm)
    → (stamp.sequence_id == q.head.sequence_id) ≡ true
    → md_pdelay_resp_sm_txts stamp (responded q t2 (idle s sm))
      ≡ done (served stamp.ts (responded q t2 (idle s sm))) (
          follow_up sm.port.this_port (
            frame_pdelay_resp_follow_up (set_pdelay_resp_follow_up (record sm { t3 = stamp.ts }) q))
          ∷ [])
unfolding md_pdelay_resp_sm_txts md_pdelay_resp_sm_run all_state_transition run_loop round run_state
    waiting_for_pdelay_req_state_transition waiting_for_pdelay_req_action
    sent_pdelay_resp_state_transition set_pdelay_resp_follow_up
txts-served s q t2 stamp sm e = rw (md_pdelay_resp_sm_txts, e) refl

-- A second request before the time stamp takes the place of the first.
abbrev pub overtaken :
    PtpMsgPdelayReq → PtpMsgPdelayReq → UScaledNs → UScaledNs → MdPdelayRespSm → MdPdelayRespSm
overtaken q q' t2 t2' sm = record (responded q t2 sm) {
  rcvd_pdelay_req = true;
  rcvd_pdelay_req_ptr = some q';
  t2 = t2';
}

recv_req-overtaken :
    (s : State) (q q' : PtpMsgPdelayReq) (t2 : UScaledNs) (stamp : TsuTimestamp)
    (sm : MdPdelayRespSm)
    → md_pdelay_resp_sm_recv_req stamp q' (responded q t2 (idle s sm))
      ≡ done (overtaken q q' t2 stamp.ts (idle s sm)) []
unfolding md_pdelay_resp_sm_recv_req md_pdelay_resp_sm_run all_state_transition run_loop round
    run_state sent_pdelay_resp_state_transition
recv_req-overtaken s q q' t2 stamp sm = refl

txts-overtaken :
    (s : State) (q q' : PtpMsgPdelayReq) (t2 t2' : UScaledNs) (stamp : TsuTimestamp)
    (sm : MdPdelayRespSm)
    → md_pdelay_resp_sm_txts stamp (overtaken q q' t2 t2' (idle s sm)) ≡ (
        if stamp.sequence_id == q'.head.sequence_id
        then undefined
        else done (overtaken q q' t2 t2' (idle s sm)) [])
unfolding md_pdelay_resp_sm_txts md_pdelay_resp_sm_run all_state_transition run_loop round run_state
    waiting_for_pdelay_req_state_transition waiting_for_pdelay_req_action
    sent_pdelay_resp_state_transition sent_pdelay_resp_action
txts-overtaken s q q' t2 t2' stamp sm = refl

-- The machine waits for a request on a port that runs.
pub record IsIdle (sm : MdPdelayRespSm) : Type 0 where
  pub waiting :
      ((sm.state ≡ waiting_for_pdelay_req) × (sm.last_state ≡ waiting_for_pdelay_req))
      ⊎ ((sm.state ≡ initial_waiting_for_pdelay_req)
          × (sm.last_state ≡ initial_waiting_for_pdelay_req))
  pub no_stamp : sm.rcvd_md_timestamp_receive_md_presp ≡ false
  pub enabled : sm.port_enabled1 ≡ true
  pub operational : sm.port.port_oper ≡ true
  pub not_begin : sm.instance_global.begin ≡ false

-- The machine is the literal one.
literal :
    (sm : MdPdelayRespSm)
    → IsIdle sm
    → (s : State) × ((s ≡ waiting_for_pdelay_req) ⊎ (s ≡ initial_waiting_for_pdelay_req))
      × (idle s sm ≡ sm)
literal sm k = elim k.waiting [
  | inl (e, e') ↦ (waiting_for_pdelay_req, inl refl, ground arith)
  | inr (e, e') ↦ (initial_waiting_for_pdelay_req, inr refl, ground arith)
]

-- The two frames that answer a request.
abbrev pub answers : PtpMsgPdelayReq → UScaledNs → UScaledNs → MdPdelayRespSm → List Sent
answers q t2 t3 sm =
    resp sm.port.this_port (frame_pdelay_resp (set_pdelay_resp (record sm { t2 = t2 }) q))
    ∷ follow_up sm.port.this_port
        (frame_pdelay_resp_follow_up (set_pdelay_resp_follow_up (record sm { t3 = t3 }) q))
    ∷ []

-- From rest, a request and then the time stamp of its response make the machine send both frames to the
-- port, and leave it at rest with no request.
pub recv_req-Serves :
    (q : PtpMsgPdelayReq) (stamp2 stamp3 : TsuTimestamp) (sm : MdPdelayRespSm)
    → IsIdle sm
    → (stamp3.sequence_id == q.head.sequence_id) ≡ true
    → (md_pdelay_resp_sm_recv_req stamp2 q sm then md_pdelay_resp_sm_txts stamp3)
      ≡ done (served stamp3.ts (responded q stamp2.ts sm)) (answers q stamp2.ts stamp3.ts sm)
unfolding set_pdelay_resp set_pdelay_resp_follow_up
recv_req-Serves q stamp2 stamp3 sm k e =
    let (s, h, l) = literal sm k in
    subst
      (λ x.
        (md_pdelay_resp_sm_recv_req stamp2 q x then md_pdelay_resp_sm_txts stamp3)
        ≡ done (served stamp3.ts (responded q stamp2.ts x)) (answers q stamp2.ts stamp3.ts x))
      l
      (rw (recv_req-responded s q stamp2 sm h, ◌then◌, txts-served s q stamp2.ts stamp3 sm e) refl)

-- A second request that comes before the time stamp of the first response takes the place of the first
-- and is not answered. That time stamp then makes the machine read through the pointer that it has
-- just set to NULL, where the two sequence ids are the same; otherwise it is dropped, the machine still
-- waits for it, and no follow-up is sent.
pub recv_req-overtakes :
    (q q' : PtpMsgPdelayReq) (stamp2 stamp2' stamp3 : TsuTimestamp) (sm : MdPdelayRespSm)
    → IsIdle sm
    → (stamp3.sequence_id == q.head.sequence_id) ≡ true
    → (md_pdelay_resp_sm_recv_req stamp2 q sm
        then md_pdelay_resp_sm_recv_req stamp2' q'
        then md_pdelay_resp_sm_txts stamp3)
      ≡ (if q.head.sequence_id == q'.head.sequence_id
          then undefined
          else done (overtaken q q' stamp2.ts stamp2'.ts sm) (
              resp sm.port.this_port
                (frame_pdelay_resp (set_pdelay_resp (record sm { t2 = stamp2.ts }) q))
              ∷ []))
unfolding set_pdelay_resp
recv_req-overtakes q q' stamp2 stamp2' stamp3 sm k e =
    let (s, h, l) = literal sm k in
    let o = txts-overtaken s q q' stamp2.ts stamp2'.ts stamp3 sm in
    let same : stamp3.sequence_id ≡ q.head.sequence_id = ground arith in
    subst
      (λ x.
        (md_pdelay_resp_sm_recv_req stamp2 q x
          then md_pdelay_resp_sm_recv_req stamp2' q'
          then md_pdelay_resp_sm_txts stamp3)
        ≡ (if q.head.sequence_id == q'.head.sequence_id
            then undefined
            else done (overtaken q q' stamp2.ts stamp2'.ts x) (
                resp x.port.this_port
                  (frame_pdelay_resp (set_pdelay_resp (record x { t2 = stamp2.ts }) q))
                ∷ [])))
      l
      (rw
        (
          recv_req-responded s q stamp2 sm h,
          ◌then◌,
          recv_req-overtaken s q q' stamp2.ts stamp2' sm,
          o,
          same,
        )
        (elim (Bool-cases (q.head.sequence_id == q'.head.sequence_id)) [
          | inl t ↦ rw t refl
          | inr f ↦ rw f refl
        ]))
