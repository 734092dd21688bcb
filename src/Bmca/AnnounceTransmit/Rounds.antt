-- ===== src/Bmca/AnnounceTransmit/Rounds.antt =====
-- One round of the PortAnnounceTransmit machine, and the ways through IDLE
-- (time_sync/port_announce_transmit_sm.c).
use ziggo_caa_s_switch.Prelude.{
  ℕ, suc, ◌≤◌, ◌≡◌, ◌⊎◌, inl, inr, refl, true, false, List, [], ◌∷◌, ◌++◌, some, ltb, ◌==◌, get_or,
  arith, negative,
}
use ziggo_caa_s_switch.Ptp.ScaledNs.{UScaledNs, uscaledns_add, uscaledns_compare}
use ziggo_caa_s_switch.Ptp.Globals.{
  disabled_port, PerPortGlobal, PerPtpInstanceGlobal, max_path_trace_n,
}
use ziggo_caa_s_switch.Bmca.AnnounceInfo.{PtpMsgAnnounce}
use ziggo_caa_s_switch.Bmca.AnnounceTransmit.{
  State, transmit_init, transmit_periodic, idle, transmit_announce, ordinal, PortAnnounceTransmitSm,
  set_announce, is_master, is_settled, is_early, idle_state_transition, transmit_announce_action,
  run_state, round, Outcome, done, undefined, out_of_fuel, run_loop,
}

-- The time an interval from `ts` on is later than `ts`: the interval is not 0, and the sum does not
-- wrap round.
abbrev pub IsLater : UScaledNs → UScaledNs → Type 0
IsLater ts interval = negative (uscaledns_compare ts (uscaledns_add ts interval)) ≡ true

-- The states that the machine leaves within a run.
abbrev pub IsResting : State → Type 0
IsResting transmit_init = ⊥
IsResting transmit_periodic = ⊥
IsResting transmit_announce = ⊥
IsResting _ = Unit

-- Nothing is sent, or the one announcement of a master port whose choice stands.
abbrev pub Sent : PerPtpInstanceGlobal → PerPortGlobal → ℕ → List (ℕ × PtpMsgAnnounce) → Type 0
Sent g p id [] = Unit
Sent g p id ((i, a) ∷ frames) =
    (frames ≡ [])
    × (i ≡ id)
    × (set_announce g p ≡ some a)
    × (is_master (get_or g.selected_state p.this_port disabled_port) ≡ true)
    × (is_settled g p ≡ true)
    × (p.asymmetry_measurement_mode ≡ false)

-- The run has ended at rest, having sent at most that.
abbrev pub Ends : PerPtpInstanceGlobal → PerPortGlobal → ℕ → Outcome → Type 0
Ends g p id (done sm sent) = IsResting sm.state × Sent g p id sent
Ends g p id undefined = ⊥
Ends g p id out_of_fuel = ⊥

set_announce-some :
    (g : PerPtpInstanceGlobal) (p : PerPortGlobal)
    → g.n_path_trace ≤ max_path_trace_n
    → (a : PtpMsgAnnounce) × (set_announce g p ≡ some a)
unfolding set_announce
set_announce-some g p h =
    let room : ltb max_path_trace_n g.n_path_trace ≡ false = ground arith in rw room (_, refl)

module _ (ts : UScaledNs) where
  -- IDLE is entered with nothing to send.
  loop_idle_quiet :
      (k : ℕ) (sm : PortAnnounceTransmitSm) (sent : List (ℕ × PtpMsgAnnounce))
      → sm.state ≡ idle
      → (5 == ordinal sm.last_state) ≡ false
      → sm.new_info ≡ false
      → IsLater ts sm.interval2
      → Sent sm.instance_global sm.port sm.sequence_id (sent ++ [])
      → Ends sm.instance_global sm.port sm.sequence_id (run_loop (suc k) ts sm sent)
  unfolding run_loop round run_state idle_state_transition
  loop_idle_quiet k sm sent e h n l s = ground arith

  -- A round that changes the state, and one that does not.
  pub loop_more :
      (k : ℕ) (sm sm' : PortAnnounceTransmitSm) (sent frames : List (ℕ × PtpMsgAnnounce))
      → round ts sm ≡ some (sm', frames)
      → (ordinal sm'.state == ordinal sm'.last_state) ≡ false
      → run_loop (suc k) ts sm sent ≡ run_loop k ts sm' (sent ++ frames)
  unfolding run_loop
  loop_more k sm sm' sent frames e h = rw (run_loop, e) (rw h)

  pub loop_stop :
      (k : ℕ) (sm sm' : PortAnnounceTransmitSm) (sent frames : List (ℕ × PtpMsgAnnounce))
      → round ts sm ≡ some (sm', frames)
      → (ordinal sm'.state == ordinal sm'.last_state) ≡ true
      → run_loop (suc k) ts sm sent ≡ done sm' (sent ++ frames)
  unfolding run_loop
  loop_stop k sm sm' sent frames e h = rw (run_loop, e) (rw h)

  -- The machine after its announcement.
  sent_one : PortAnnounceTransmitSm → PtpMsgAnnounce → PortAnnounceTransmitSm
  sent_one sm a = record sm {
    new_info = false;
    tx_announce = some a;
    interval2 = sm.port.announce_interval;
    last_state = transmit_announce;
    state = idle;
  }

  round_announce :
      (sm : PortAnnounceTransmitSm) (a : PtpMsgAnnounce)
      → sm.state ≡ transmit_announce
      → (6 == ordinal sm.last_state) ≡ false
      → set_announce sm.instance_global sm.port ≡ some a
      → round ts sm ≡ some (sent_one sm a, (sm.sequence_id, a) ∷ [])
  unfolding round run_state transmit_announce_action sent_one
  round_announce sm a e n eq = rw (round, e) (rw (n, run_state, transmit_announce_action, eq) refl)

  pub loop_announce :
      (k : ℕ) (sm : PortAnnounceTransmitSm)
      → sm.state ≡ transmit_announce
      → (6 == ordinal sm.last_state) ≡ false
      → sm.instance_global.n_path_trace ≤ max_path_trace_n
      → IsLater ts sm.port.announce_interval
      → is_master (get_or sm.instance_global.selected_state sm.port.this_port disabled_port) ≡ true
      → is_settled sm.instance_global sm.port ≡ true
      → sm.port.asymmetry_measurement_mode ≡ false
      → Ends sm.instance_global sm.port sm.sequence_id (run_loop (suc (suc k)) ts sm [])
  unfolding sent_one
  loop_announce k sm e n path l m s y =
      let (a, eq) = set_announce-some sm.instance_global sm.port path in
      rw
        (loop_more (suc k) sm (sent_one sm a) [] ((sm.sequence_id, a) ∷ [])
          (round_announce sm a e n eq) refl)
        (loop_idle_quiet k (sent_one sm a) ((sm.sequence_id, a) ∷ []) refl refl refl l
          (refl, refl, eq, m, s, y))

  -- Where IDLE leads before the send time.
  abbrev pub MayAnnounce : PortAnnounceTransmitSm → Type 0
  MayAnnounce sm =
      (is_master (get_or sm.instance_global.selected_state sm.port.this_port disabled_port) ≡ true)
      × (is_settled sm.instance_global sm.port ≡ true)
      × (sm.port.asymmetry_measurement_mode ≡ false)

  idle_state_transition-early :
      (sm : PortAnnounceTransmitSm)
      → sm.state ≡ idle
      → is_early ts sm ≡ true
      → (idle_state_transition ts sm ≡ idle)
        ⊎ ((idle_state_transition ts sm ≡ transmit_announce) × MayAnnounce sm)
  unfolding idle_state_transition
  idle_state_transition-early sm e h = ground arith

  -- And at any time.
  pub idle_state_transition-cases :
      (sm : PortAnnounceTransmitSm)
      → sm.state ≡ idle
      → (idle_state_transition ts sm ≡ idle)
        ⊎ (idle_state_transition ts sm ≡ transmit_periodic)
        ⊎ ((idle_state_transition ts sm ≡ transmit_announce) × MayAnnounce sm)
  unfolding idle_state_transition
  idle_state_transition-cases sm e = ground arith

  -- The machine after a round in IDLE, by what it becomes before the transition.
  unfoldable pub idled : PortAnnounceTransmitSm → PortAnnounceTransmitSm
  idled sm = record sm { state = idle_state_transition ts sm; last_state = idle }

  entered : PortAnnounceTransmitSm → PortAnnounceTransmitSm
  entered sm = record sm { announce_send_time = uscaledns_add ts sm.interval2; last_state = idle }

  round-idle_enter :
      (sm : PortAnnounceTransmitSm)
      → sm.state ≡ idle
      → (5 == ordinal sm.last_state) ≡ false
      → round ts sm ≡ some (idled (entered sm), [])
  unfolding round run_state idled entered
  round-idle_enter sm e n = rw (round, e) (rw (n, run_state) refl)

  pub round-idle_stay :
      (sm : PortAnnounceTransmitSm)
      → sm.state ≡ idle
      → (5 == ordinal sm.last_state) ≡ true
      → round ts sm ≡ some (idled (record sm { last_state = idle }), [])
  unfolding round run_state idled
  round-idle_stay sm e n = rw (round, e) (rw (n, run_state) refl)

  pub loop_idle_enter :
      (k : ℕ) (sm : PortAnnounceTransmitSm)
      → sm.state ≡ idle
      → (5 == ordinal sm.last_state) ≡ false
      → sm.instance_global.n_path_trace ≤ max_path_trace_n
      → IsLater ts sm.interval2
      → IsLater ts sm.port.announce_interval
      → Ends sm.instance_global sm.port sm.sequence_id (run_loop (suc (suc (suc k))) ts sm [])
  unfolding idled entered
  loop_idle_enter k sm e n path l l' = elim (idle_state_transition-early (entered sm) e l) [
    | inl stay ↦
        rw
          (
            loop_stop (suc (suc k)) sm (idled (entered sm)) [] [] (round-idle_enter sm e n)
                (rw stay refl),
            stay,
          )
          (tt, tt)
    | inr (announce, may) ↦
        rw
          (loop_more (suc (suc k)) sm (idled (entered sm)) [] [] (round-idle_enter sm e n)
            (rw announce refl))
          (loop_announce k (idled (entered sm)) announce refl path l' may.0 may.1 may.2)
  ]
