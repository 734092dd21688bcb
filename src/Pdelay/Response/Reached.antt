-- ===== src/Pdelay/Response/Reached.antt =====
-- The MDPdelayResp machine in its environment: the events that the main loop hands to it, and what they
-- reach (time_sync/md_pdelay_resp_sm.c, time_sync_main_loop.c).
use ziggo_caa_s_switch.Prelude.{
  ◌≡◌, inl, inr, true, false, List, ◌==◌, arith, Bool-cases, Option-cases, subst,
}
use ziggo_caa_s_switch.Ptp.Globals.{PerPortGlobal, PerPtpInstanceGlobal}
use ziggo_caa_s_switch.Pdelay.Messages.{PtpMsgPdelayReq, TsuTimestamp}
use ziggo_caa_s_switch.Pdelay.Response.{
  ordinal, MdPdelayRespSm, Sent, Outcome, done, md_pdelay_resp_sm_txts, md_pdelay_resp_sm_recv_req,
  init_md_pdelay_resp_sm,
}
use ziggo_caa_s_switch.Pdelay.Response.Ending.{IsValid, IsResting, Ends, md_pdelay_resp_sm_run-Ends}

-- What the main loop hands to the machine: the time stamp of a sent response, or a request with its time
-- stamp.
pub data Event : Type 0 where
  txts : TsuTimestamp → Event
  recv_req : TsuTimestamp → PtpMsgPdelayReq → Event

-- No request comes while the machine waits for the time stamp of its response.
abbrev pub IsExpected : MdPdelayRespSm → Event → Type 0
IsExpected sm (recv_req stamp req) = (ordinal sm.state == 3) ≡ false
IsExpected sm _ = Unit

-- An event, by the call that the main loop makes.
unfoldable pub handle : Event → MdPdelayRespSm → Outcome
handle (txts stamp) sm = md_pdelay_resp_sm_txts stamp sm
handle (recv_req stamp req) sm = md_pdelay_resp_sm_recv_req stamp req sm

txts-Ends :
    (stamp : TsuTimestamp) (sm : MdPdelayRespSm)
    → IsValid sm
    → IsResting sm
    → Ends (md_pdelay_resp_sm_txts stamp sm)
unfolding md_pdelay_resp_sm_txts
txts-Ends stamp sm v r = elim (Bool-cases (ordinal sm.state == 3)) [
  | inr n ↦ rw (md_pdelay_resp_sm_txts, n) (v, r)
  | inl y ↦ elim (Option-cases sm.rcvd_pdelay_req_ptr) [
    | inl e ↦ absurd (ground (arith, v.held y))
    | inr (req, e) ↦ elim (Bool-cases (stamp.sequence_id == req.head.sequence_id)) [
      | inr n ↦ rw (md_pdelay_resp_sm_txts, y) (rw e (rw n (v, r)))
      | inl same ↦
          rw (md_pdelay_resp_sm_txts, y)
            (rw e (
              rw same (
                md_pdelay_resp_sm_run-Ends
                  (record sm { t3 = stamp.ts; rcvd_md_timestamp_receive_md_presp = true })
                  (ground arith))))
    ]
  ]
]

recv_req-Ends :
    (stamp : TsuTimestamp) (req : PtpMsgPdelayReq) (sm : MdPdelayRespSm)
    → IsValid sm
    → IsResting sm
    → (ordinal sm.state == 3) ≡ false
    → Ends (md_pdelay_resp_sm_recv_req stamp req sm)
unfolding md_pdelay_resp_sm_recv_req
recv_req-Ends stamp req sm v r x = md_pdelay_resp_sm_run-Ends _ (ground arith)

handle-Ends :
    (e : Event) (sm : MdPdelayRespSm)
    → IsValid sm
    → IsResting sm
    → IsExpected sm e
    → Ends (handle e sm)
unfolding handle
handle-Ends (txts stamp) sm v r x = txts-Ends stamp sm v r
handle-Ends (recv_req stamp req) sm v r x = recv_req-Ends stamp req sm v r x

init-Ends : (memory : MdPdelayRespSm) → Ends (init_md_pdelay_resp_sm memory)
unfolding init_md_pdelay_resp_sm
init-Ends memory = md_pdelay_resp_sm_run-Ends _ (ground arith)

-- What the memory of the machine reaches: from its initialisation, by the other machines' writes to what
-- they share, and by the expected events of the main loop.
pub data Reached : MdPdelayRespSm → Type 0 where
  started :
      (memory : MdPdelayRespSm) {sm : MdPdelayRespSm} {sent : List Sent}
      → init_md_pdelay_resp_sm memory ≡ done sm sent
      → Reached sm
  shared :
      (p : PerPortGlobal) (g : PerPtpInstanceGlobal) {sm : MdPdelayRespSm}
      → Reached sm
      → Reached (record sm { port = p; instance_global = g })
  handled :
      (e : Event) {sm s : MdPdelayRespSm} {sent : List Sent}
      → Reached sm
      → IsExpected sm e
      → handle e sm ≡ done s sent
      → Reached s

Reached-IsValid : {sm : MdPdelayRespSm} → Reached sm → IsValid sm × IsResting sm
Reached-IsValid (started memory e) = subst Ends e (init-Ends memory)
Reached-IsValid (shared p g {sm} r) = let (v, rest) = Reached-IsValid r in ground arith
Reached-IsValid (handled e {sm} r x done_eq) =
    let (v, rest) = Reached-IsValid r in subst Ends done_eq (handle-Ends e sm v rest x)

-- Whatever the order of the time stamps, requests and writes to the shared state since the
-- initialisation, as long as no request comes while the machine waits for the time stamp of its response:
-- the next event follows no pointer that is not set, needs no more rounds than the fuel, and leaves
-- the machine valid and at rest.
pub Reached-Ends :
    (e : Event) {sm : MdPdelayRespSm} → Reached sm → IsExpected sm e → Ends (handle e sm)
Reached-Ends e {sm} r x = let (v, rest) = Reached-IsValid r in handle-Ends e sm v rest x
