-- ===== src/Pdelay/Response/Ending.antt =====
-- A run of the MDPdelayResp machine ends, follows no pointer that is not set, and leaves a valid machine
-- (time_sync/md_pdelay_resp_sm.c).
use ziggo_caa_s_switch.Prelude.{
  ℕ, zero, suc, ◌+◌, ◌<◌, ◌≡◌, inl, inr, refl, Bool, true, false, not, ◌&&◌, ◌||◌, Option, none,
  some, List, [], ◌++◌, ◌==◌, arith, if◌then◌else◌, Bool-cases,
}
use ziggo_caa_s_switch.Pdelay.Response.{
  State, init, not_enabled, initial_waiting_for_pdelay_req, sent_pdelay_resp_waiting_for_timestamp,
  waiting_for_pdelay_req, before_init, ordinal, MdPdelayRespSm, Sent, Outcome, done, undefined,
  out_of_fuel, go, all_state_transition, not_enabled_state_transition,
  initial_waiting_for_pdelay_req_state_transition, sent_pdelay_resp_action,
  sent_pdelay_resp_state_transition, waiting_for_pdelay_req_action,
  waiting_for_pdelay_req_state_transition, run_state, round, run_loop, run_fuel,
  md_pdelay_resp_sm_run,
}

abbrev pub is_some {ℓ} : {A : Type ℓ} → Option A → Bool
is_some none = false
is_some (some a) = true

-- A state that the machine comes from another state into.
abbrev pub is_entry : State → State → Bool
is_entry s l = not (ordinal s == ordinal l)

-- The states in which the machine waits for a request.
abbrev pub is_waiting : State → State → Bool
is_waiting s l = ((ordinal s == 2) || (ordinal s == 4)) && not (is_entry s l)

-- The flags and the pointer of `sm` fit the state `s`, entered from `l`.
pub record Fits (s l : State) (sm : MdPdelayRespSm) : Type 0 where
  pub held : (ordinal s == 3) ≡ true → is_some sm.rcvd_pdelay_req_ptr ≡ true
  pub taken : ((ordinal s == 3) && not (is_entry s l)) ≡ true → sm.rcvd_pdelay_req ≡ false
  pub followed :
      ((ordinal s == 4) && is_entry s l) ≡ true
      → (sm.rcvd_pdelay_req ≡ false) × (is_some sm.rcvd_pdelay_req_ptr ≡ true)
  pub asked :
      is_waiting s l ≡ true → sm.rcvd_pdelay_req ≡ true → is_some sm.rcvd_pdelay_req_ptr ≡ true
  pub stamped : is_waiting s l ≡ true → sm.rcvd_md_timestamp_receive_md_presp ≡ false

abbrev pub IsValid : MdPdelayRespSm → Type 0
IsValid sm = Fits sm.state sm.last_state sm

abbrev bit : Bool → ℕ
bit true = 1
bit false = 0

-- At most so many rounds are left: entering a state takes its flag.
abbrev rank : State → State → Bool → Bool → ℕ
rank init l req ts = 2
rank not_enabled l req ts = 1
rank initial_waiting_for_pdelay_req l req ts = if 2 == ordinal l then bit req + bit ts else 0
rank sent_pdelay_resp_waiting_for_timestamp l req ts =
    if 3 == ordinal l then bit req + bit ts else bit ts
rank waiting_for_pdelay_req l req ts = if 4 == ordinal l then bit req + bit ts else bit req
rank before_init l req ts = 0

abbrev rank_of : MdPdelayRespSm → ℕ
rank_of sm = rank sm.state sm.last_state sm.rcvd_pdelay_req sm.rcvd_md_timestamp_receive_md_presp

abbrev pub IsResting : MdPdelayRespSm → Type 0
IsResting sm = (ordinal sm.state == ordinal sm.last_state) ≡ true

-- The machine is valid and at rest.
abbrev pub Ends : Outcome → Type 0
Ends (done sm sent) = IsValid sm × IsResting sm
Ends undefined = ⊥
Ends out_of_fuel = ⊥

-- A round leaves a valid machine that rests or comes nearer to rest.
abbrev Sound : ℕ → Outcome → Type 0
Sound n (done sm sent) =
    IsValid sm × ((ordinal sm.state == ordinal sm.last_state) ≡ false → rank_of sm < n)
Sound n undefined = ⊥
Sound n out_of_fuel = ⊥

Sound-done :
    (n : ℕ) (o : Outcome)
    → Sound n o
    → (sm : MdPdelayRespSm) × (sent : List Sent) × (o ≡ done sm sent) × Sound n (done sm sent)
Sound-done n (done sm sent) h = (sm, sent, refl, h)
Sound-done n undefined h = absurd h
Sound-done n out_of_fuel h = absurd h

round-Sound :
    (s : State) (sm : MdPdelayRespSm)
    → sm.state ≡ s
    → Fits s sm.last_state sm
    → Sound
        (rank s sm.last_state sm.rcvd_pdelay_req sm.rcvd_md_timestamp_receive_md_presp)
        (round sm)
unfolding round run_state not_enabled_state_transition
    initial_waiting_for_pdelay_req_state_transition sent_pdelay_resp_action
    sent_pdelay_resp_state_transition waiting_for_pdelay_req_action
    waiting_for_pdelay_req_state_transition
round-Sound init sm e v = ground arith
round-Sound not_enabled sm e v = ground arith
round-Sound initial_waiting_for_pdelay_req sm e v = ground arith
round-Sound sent_pdelay_resp_waiting_for_timestamp sm e v = ground arith
round-Sound waiting_for_pdelay_req sm e v = ground arith
round-Sound before_init sm e v = ground arith

run_loop-Ends :
    (fuel : ℕ) (sm : MdPdelayRespSm) (sent : List Sent)
    → IsValid sm
    → rank_of sm < fuel
    → Ends (run_loop fuel sm sent)
unfolding run_loop
run_loop-Ends zero sm sent v h = absurd (omega arith)
run_loop-Ends (suc fuel) sm sent v h =
    let (s, frames, e, (valid, less)) = Sound-done _ (round sm) (round-Sound sm.state sm refl v) in
    let rest = run_loop-Ends fuel s (sent ++ frames) valid in
    elim (Bool-cases (ordinal s.state == ordinal s.last_state)) [
      | inl stop ↦ rw (run_loop, e) (rw stop (valid, stop))
      | inr more ↦ let l = less more in rw (run_loop, e) (rw more (rest (omega (arith, l, h))))
    ]

rank_lt : (s l : State) (req ts : Bool) → rank s l req ts < run_fuel
rank_lt s l req ts = ground arith

all_state_transition-Fits :
    (sm : MdPdelayRespSm) → IsValid sm → Fits (all_state_transition sm) sm.last_state sm
unfolding all_state_transition
all_state_transition-Fits sm v =
    elim (Bool-cases (sm.instance_global.begin || not sm.port.port_oper || not sm.port_enabled1)) [
      | inl e ↦ rw (all_state_transition, e) (ground arith)
      | inr e ↦ rw (all_state_transition, e) v
    ]

-- A run from a valid machine ends within its fuel, in a valid machine at rest.
pub md_pdelay_resp_sm_run-Ends :
    (sm : MdPdelayRespSm) → IsValid sm → Ends (md_pdelay_resp_sm_run sm)
unfolding md_pdelay_resp_sm_run
md_pdelay_resp_sm_run-Ends sm v =
    let s = all_state_transition sm in
    let f = all_state_transition-Fits sm v in
    run_loop-Ends run_fuel (go s sm) []
      (record {
        held = f.held;
        taken = f.taken;
        followed = f.followed;
        asked = f.asked;
        stamped = f.stamped;
      })
      (rank_lt s sm.last_state sm.rcvd_pdelay_req sm.rcvd_md_timestamp_receive_md_presp)
