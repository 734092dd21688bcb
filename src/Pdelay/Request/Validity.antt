-- ===== src/Pdelay/Request/Validity.antt =====
-- When the pointers and flags of the MDPdelayReq machine fit its state, so that no pointer is followed
-- that is not set (time_sync/md_pdelay_req_sm.c).
use ziggo_caa_s_switch.Prelude.{
  ◌<◌, ◌≡◌, Bool, true, false, not, ◌&&◌, ◌||◌, Option, none, some, ltb, ◌==◌, length,
}
use ziggo_caa_s_switch.Ptp.ScaledNs.{UScaledNs}
use ziggo_caa_s_switch.Ptp.Globals.{PerPortGlobal, PerPtpInstanceGlobal, MdEntityGlobal}
use ziggo_caa_s_switch.Pdelay.Messages.{PtpMsgPdelayReq, PtpMsgPdelayResp}
use ziggo_caa_s_switch.Pdelay.Request.{State, ordinal, max_length, MdPdelayReqSm}

abbrev pub is_some {ℓ} : {A : Type ℓ} → Option A → Bool
is_some none = false
is_some (some a) = true

-- A state that the machine comes from another state into.
abbrev pub is_entry : State → State → Bool
is_entry s l = not (ordinal s == ordinal l)

-- The states in which the request of the machine is set.
abbrev pub has_request : State → State → Bool
has_request s l =
    (ordinal s == 3)
    || (ordinal s == 4)
    || ((ordinal s == 5) && is_entry s l)
    || (((ordinal s == 2) || (ordinal s == 7)) && not (is_entry s l))

-- The states in which the request has been answered.
abbrev pub has_response : State → State → Bool
has_response s l = (ordinal s == 4) || ((ordinal s == 5) && is_entry s l)

-- The states behind the first request.
abbrev pub is_live : State → State → Bool
is_live s l = (ltb 2 (ordinal s) && ltb (ordinal s) 8) || ((ordinal s == 2) && not (is_entry s l))

-- The states in which the time stamp of the request may have come.
abbrev pub may_be_sent : State → State → Bool
may_be_sent s l =
    ltb (ordinal s) 3 || (ordinal s == 7) || (ordinal s == 8) || ((ordinal s == 3) && is_entry s l)

abbrev pub same_sequence : Option PtpMsgPdelayResp → Option PtpMsgPdelayReq → Bool
same_sequence (some resp) (some req) = resp.head.sequence_id == req.head.sequence_id
same_sequence (some resp) none = false
same_sequence none req = false

-- The flags and pointers of `sm` fit the state `s`, entered from `l`.
pub record Fits (s l : State) (sm : MdPdelayReqSm) : Type 0 where
  pub request : has_request s l ≡ true → is_some sm.tx_pdelay_req_ptr ≡ true
  pub response :
      is_live s l ≡ true → sm.rcvd_pdelay_resp ≡ true → is_some sm.rcvd_pdelay_resp_ptr ≡ true
  pub follow_up :
      is_live s l ≡ true
      → sm.rcvd_pdelay_resp_follow_up ≡ true
      → is_some sm.rcvd_pdelay_resp_follow_up_ptr ≡ true
  pub answered : has_response s l ≡ true → is_some sm.rcvd_pdelay_resp_ptr ≡ true
  pub followed :
      ((ordinal s == 5) && is_entry s l) ≡ true → is_some sm.rcvd_pdelay_resp_follow_up_ptr ≡ true
  pub taken : ((ordinal s == 5) && is_entry s l) ≡ true → sm.rcvd_pdelay_resp ≡ false
  pub sent : sm.rcvd_md_timestamp_receive_md_preq ≡ true → may_be_sent s l ≡ true
  pub repeated :
      ((ordinal s == 4) && not (is_entry s l)) ≡ true
      → sm.rcvd_pdelay_resp ≡ true
      → same_sequence sm.rcvd_pdelay_resp_ptr sm.tx_pdelay_req_ptr ≡ true
  pub head_lt : sm.list_head_prop_time < max_length
  pub tail_lt : sm.list_tail_prop_time < max_length
  pub ingress_length : length sm.pdelay_resp_event_ingress_timestamps ≡ max_length
  pub responder_length : length sm.corrected_responder_event_timestamps ≡ max_length

abbrev pub IsValid : MdPdelayReqSm → Type 0
IsValid sm = Fits sm.state sm.last_state sm

-- It does not matter what the other fields hold.
pub Fits-change :
    {s l : State} (sm : MdPdelayReqSm) (s' l' : State) (p : PerPortGlobal)
    (g : PerPtpInstanceGlobal) (m : MdEntityGlobal) (t1 t2 t3 t4 : UScaledNs)
    → Fits s l sm
    → Fits s l (record sm {
      state = s';
      last_state = l';
      port = p;
      instance_global = g;
      md_entity = m;
      t1 = t1;
      t2 = t2;
      t3 = t3;
      t4 = t4;
    })
Fits-change sm s' l' p g m t1 t2 t3 t4 v = record {
  request = v.request;
  response = v.response;
  follow_up = v.follow_up;
  answered = v.answered;
  followed = v.followed;
  taken = v.taken;
  sent = v.sent;
  repeated = v.repeated;
  head_lt = v.head_lt;
  tail_lt = v.tail_lt;
  ingress_length = v.ingress_length;
  responder_length = v.responder_length;
}
