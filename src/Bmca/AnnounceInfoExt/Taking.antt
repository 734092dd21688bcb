-- ===== src/Bmca/AnnounceInfoExt/Taking.antt =====
-- A run of the PortAnnounceInformationExt machine, and what it takes from a message
-- (time_sync/port_announce_information_ext_sm.c).
use ziggo_caa_s_switch.Prelude.{
  ℕ, suc, ◌+◌, ◌/◌, ◌<◌, ◌≡◌, ◌⊎◌, inl, inr, refl, ap, ◌∙◌, true, false, Option, none, some, leb,
  ◌==◌, if◌then◌else◌, arith, Bool-cases, u16, ◌∷◌, ◌++◌, take, drop,
}
use ziggo_caa_s_switch.Ptp.Globals.{PerPtpInstanceGlobal, max_path_trace_n}
use ziggo_caa_s_switch.Bmca.AnnounceInfo.{PtpMsgAnnounce, announced_time}
use ziggo_caa_s_switch.Bmca.AnnounceInfoExt.{
  State, reaction, initialize, receive, ordinal, PortAnnounceInformationExtSm, rcv_vector,
  rcv_info_ext, record_other_announce_info, is_capable, is_slave_port, all_state_transition,
  initialize_state_transition, receive_action, receive_state_transition, run_state, round, done,
  run_loop, run_fuel, port_announce_information_ext_sm_run,
  port_announce_information_ext_sm_recv_announce, init_port_announce_information_ext_sm,
}

-- What a slave port makes of the instance.
abbrev pub taken : PerPtpInstanceGlobal → PtpMsgAnnounce → PerPtpInstanceGlobal
taken g a = record g {
  gm_steps_removed = u16 (a.steps_removed + 1);
  gm_priority = rcv_vector g.gm_priority a;
  path_trace =
      take (a.length_field / 8) a.path_sequence
      ++ g.this_clock ∷ drop (a.length_field / 8 + 1) g.path_trace;
  n_path_trace = a.length_field / 8 + 1;
  time = announced_time a;
}

-- The instance after a message, by the role of the port.
abbrev pub updated : PortAnnounceInformationExtSm → PtpMsgAnnounce → PerPtpInstanceGlobal
updated sm a = if is_slave_port sm then taken sm.instance_global a else sm.instance_global

-- The machine with a message, and after it has read the message.
abbrev holding :
    PortAnnounceInformationExtSm → PtpMsgAnnounce → State → State → PortAnnounceInformationExtSm
holding sm a s l = record sm {
  rcvd_announce_paie = true;
  rcvd_announce = some a;
  state = s;
  last_state = l;
}

abbrev pub after : PortAnnounceInformationExtSm → PtpMsgAnnounce → PortAnnounceInformationExtSm
after sm a = record sm {
  rcvd_announce_paie = false;
  rcvd_announce = some a;
  instance_global = updated sm a;
  state = receive;
  last_state = receive;
}

module _ (sm : PortAnnounceInformationExtSm) (a : PtpMsgAnnounce) (h : a.length_field < 64) where
  receive_action-after : receive_action (holding sm a receive receive) ≡ some (after sm a)
  unfolding receive_action rcv_info_ext record_other_announce_info
  receive_action-after =
      let fits : leb max_path_trace_n (a.length_field / 8) ≡ false = ground arith in
      elim (Bool-cases (is_slave_port sm)) [
        | inl s ↦ rw (receive_action, s, fits) refl
        | inr s ↦ rw (receive_action, s) refl
      ]

  receive_state_transition-after : receive_state_transition (after sm a) ≡ after sm a
  unfolding receive_state_transition
  receive_state_transition-after = elim (Bool-cases (is_capable sm.port)) [
    | inl c ↦ rw c refl
    | inr c ↦ rw c refl
  ]

  -- RECEIVE entered anew with the message.
  round_receive :
      (l : State) → (ordinal l == 4) ≡ false → round (holding sm a receive l) ≡ some (after sm a)
  unfolding round run_state
  round_receive l n = rw n (
      ap
        (λ r. elim r as (λ _. Option PortAnnounceInformationExtSm) [
          | none ↦ none
          | some s ↦ some (receive_state_transition s)
        ])
        receive_action-after
      ∙ ap some receive_state_transition-after)

  -- RECEIVE left and entered again, as another message is pending.
  round_again :
      is_capable sm.port ≡ true
      → round (holding sm a receive receive) ≡ some (holding sm a receive reaction)
  unfolding round run_state receive_state_transition
  round_again c = rw c refl

  round_initialize :
      is_capable sm.port ≡ true
      → round (holding sm a initialize initialize) ≡ some (holding sm a receive initialize)
  unfolding round run_state initialize_state_transition
  round_initialize c = rw c refl

  loop_receive :
      (k : ℕ) (l : State)
      → (ordinal l == 4) ≡ false
      → run_loop (suc k) (holding sm a receive l) ≡ done (after sm a)
  unfolding run_loop
  loop_receive k l n = rw (run_loop, round_receive l n) refl

  loop_taking :
      is_capable sm.port ≡ true
      → (run_loop run_fuel (holding sm a receive receive) ≡ done (after sm a))
        × (run_loop run_fuel (holding sm a initialize initialize) ≡ done (after sm a))
  unfolding run_loop
  loop_taking c = (
    rw (run_loop, round_again c) (loop_receive 2 reaction refl),
    rw (run_loop, round_initialize c) (loop_receive 2 initialize refl),
  )

all_state_transition-kept :
    (sm : PortAnnounceInformationExtSm) (a : PtpMsgAnnounce)
    → is_capable sm.port ≡ true
    → sm.instance_global.begin ≡ false
    → sm.instance_global.instance_enable ≡ true
    → all_state_transition (holding sm a sm.state sm.last_state) ≡ sm.state
unfolding all_state_transition
all_state_transition-kept sm a c b e = ground arith

-- A capable port of a running instance that rests in INITIALIZE or RECEIVE takes a message whose path
-- trace has less than 64 bytes at once, and then rests in RECEIVE: on the slave port the instance
-- gets the grandmaster, the time properties and the path of the message, with one more step and this
-- clock behind the path, and on another port it stays the same.
pub port_announce_information_ext_sm_recv_announce-after :
    (sm : PortAnnounceInformationExtSm) (a : PtpMsgAnnounce)
    → a.length_field < 64
    → is_capable sm.port ≡ true
    → sm.instance_global.begin ≡ false
    → sm.instance_global.instance_enable ≡ true
    → ((sm.state ≡ receive) × (sm.last_state ≡ receive))
      ⊎ ((sm.state ≡ initialize) × (sm.last_state ≡ initialize))
    → port_announce_information_ext_sm_recv_announce sm a ≡ done (after sm a)
unfolding port_announce_information_ext_sm_recv_announce port_announce_information_ext_sm_run
port_announce_information_ext_sm_recv_announce-after sm a h c b e (inl (s, l)) =
    rw (all_state_transition-kept sm a c b e, s, l) (loop_taking sm a h c).0
port_announce_information_ext_sm_recv_announce-after sm a h c b e (inr (s, l)) =
    rw (all_state_transition-kept sm a c b e, s, l) (loop_taking sm a h c).1

-- The first run ends in INITIALIZE with no message, whatever the port and the instance are.
pub init_port_announce_information_ext_sm_lem :
    (sm : PortAnnounceInformationExtSm)
    → init_port_announce_information_ext_sm sm
      ≡ done (record sm {
        rcvd_announce_paie = false;
        rcvd_announce = none;
        state = initialize;
        last_state = initialize;
      })
unfolding init_port_announce_information_ext_sm port_announce_information_ext_sm_run
    all_state_transition run_loop round run_state initialize_state_transition
init_port_announce_information_ext_sm_lem sm = ground arith
