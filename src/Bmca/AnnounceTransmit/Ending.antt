-- ===== src/Bmca/AnnounceTransmit/Ending.antt =====
-- A run of the PortAnnounceTransmit machine ends, and sends at most one announcement
-- (time_sync/port_announce_transmit_sm.c).
use ziggo_caa_s_switch.Prelude.{
  ℕ, suc, ◌≤◌, ◌≡◌, ◌⊎◌, inl, inr, refl, true, false, [], some, ◌==◌, arith, ◌<◌, u16, subst,
  Bool-cases,
}
use ziggo_caa_s_switch.Ptp.ScaledNs.{UScaledNs}
use ziggo_caa_s_switch.Ptp.Globals.{max_path_trace_n}
use ziggo_caa_s_switch.Bmca.AnnounceTransmit.{
  State, reaction, before_init, init, transmit_init, transmit_periodic, idle, transmit_announce,
  ordinal, PortAnnounceTransmitSm, all_state_transition, go, run_state, round, run_loop, run_fuel,
  port_announce_transmit_sm_run, init_port_announce_transmit_sm,
}
use ziggo_caa_s_switch.Bmca.AnnounceTransmit.Rounds.{
  IsLater, IsResting, Ends, loop_more, loop_stop, loop_announce, idle_state_transition-cases, idled,
  round-idle_stay, loop_idle_enter,
}

module _ (ts : UScaledNs) where
  round_init :
      (sm : PortAnnounceTransmitSm)
      → sm.state ≡ init
      → round ts sm ≡ some (record sm { last_state = init; state = transmit_init }, [])
  unfolding round run_state
  round_init sm e = rw (round, e) refl

  -- PERIODIC and TRANSMIT_INIT lead to IDLE.
  refreshed : State → PortAnnounceTransmitSm → PortAnnounceTransmitSm
  refreshed s sm = record sm { new_info = true; last_state = s; state = idle }

  round_periodic :
      (sm : PortAnnounceTransmitSm)
      → sm.state ≡ transmit_periodic
      → (4 == ordinal sm.last_state) ≡ false
      → round ts sm ≡ some (refreshed transmit_periodic sm, [])
  unfolding round run_state refreshed
  round_periodic sm e n = rw (round, e) (rw (n, run_state) refl)

  loop_periodic :
      (k : ℕ) (sm : PortAnnounceTransmitSm)
      → sm.state ≡ transmit_periodic
      → (4 == ordinal sm.last_state) ≡ false
      → sm.instance_global.n_path_trace ≤ max_path_trace_n
      → IsLater ts sm.interval2
      → IsLater ts sm.port.announce_interval
      → Ends sm.instance_global sm.port sm.sequence_id (run_loop (suc (suc (suc (suc k)))) ts sm [])
  unfolding refreshed
  loop_periodic k sm e n path l l' =
      rw
        (loop_more ts (suc (suc (suc k))) sm (refreshed transmit_periodic sm) [] []
          (round_periodic sm e n) refl)
        (loop_idle_enter ts k (refreshed transmit_periodic sm) refl refl path l l')

  loop_idle :
      (k : ℕ) (sm : PortAnnounceTransmitSm)
      → sm.state ≡ idle
      → sm.instance_global.n_path_trace ≤ max_path_trace_n
      → IsLater ts sm.interval2
      → IsLater ts sm.port.announce_interval
      → Ends sm.instance_global sm.port sm.sequence_id
          (run_loop (suc (suc (suc (suc (suc k))))) ts sm [])
  unfolding idled
  loop_idle k sm e path l l' = elim (Bool-cases (5 == ordinal sm.last_state)) [
    | inr n ↦ loop_idle_enter ts (suc (suc k)) sm e n path l l'
    | inl n ↦
        let s = record sm { last_state = idle } in
        let r = round-idle_stay ts sm e n in
        elim (idle_state_transition-cases ts s e) [
          | inl stay ↦
              rw
                (
                  loop_stop ts (suc (suc (suc (suc k)))) sm (idled ts s) [] [] r (rw stay refl),
                  stay,
                )
                (tt, tt)
          | inr (inl due) ↦
              rw (loop_more ts (suc (suc (suc (suc k)))) sm (idled ts s) [] [] r (rw due refl))
                (loop_periodic k (idled ts s) due refl path l l')
          | inr (inr (announce, may)) ↦
              rw (loop_more ts (suc (suc (suc (suc k)))) sm (idled ts s) [] [] r (rw announce refl))
                (loop_announce ts (suc (suc k)) (idled ts s) announce refl path l' may.0 may.1
                  may.2)
        ]
  ]

  started : PortAnnounceTransmitSm → PortAnnounceTransmitSm
  started sm = record sm {
    new_info = true;
    announce_slowdown = false;
    number_announce_transmission = 0;
    last_state = transmit_init;
    state = idle;
  }

  round_start :
      (sm : PortAnnounceTransmitSm)
      → sm.state ≡ transmit_init
      → (3 == ordinal sm.last_state) ≡ false
      → round ts sm ≡ some (started sm, [])
  unfolding round run_state started
  round_start sm e n = rw (round, e) (rw (n, run_state) refl)

  round_started :
      (sm : PortAnnounceTransmitSm)
      → sm.state ≡ transmit_init
      → (3 == ordinal sm.last_state) ≡ true
      → round ts sm ≡ some (record sm { last_state = transmit_init; state = idle }, [])
  unfolding round run_state
  round_started sm e n = rw (round, e) (rw (n, run_state) refl)

  loop_transmit_init :
      (k : ℕ) (sm : PortAnnounceTransmitSm)
      → sm.state ≡ transmit_init
      → sm.instance_global.n_path_trace ≤ max_path_trace_n
      → IsLater ts sm.interval2
      → IsLater ts sm.port.announce_interval
      → Ends sm.instance_global sm.port sm.sequence_id (run_loop (suc (suc (suc (suc k)))) ts sm [])
  unfolding started
  loop_transmit_init k sm e path l l' = elim (Bool-cases (3 == ordinal sm.last_state)) [
    | inr n ↦
        rw (loop_more ts (suc (suc (suc k))) sm (started sm) [] [] (round_start sm e n) refl)
          (loop_idle_enter ts k (started sm) refl refl path l l')
    | inl n ↦
        let s = record sm { last_state = transmit_init; state = idle } in
        rw (loop_more ts (suc (suc (suc k))) sm s [] [] (round_started sm e n) refl)
          (loop_idle_enter ts k s refl refl path l l')
  ]

  loop_init :
      (k : ℕ) (sm : PortAnnounceTransmitSm)
      → sm.state ≡ init
      → sm.instance_global.n_path_trace ≤ max_path_trace_n
      → IsLater ts sm.interval2
      → IsLater ts sm.port.announce_interval
      → Ends sm.instance_global sm.port sm.sequence_id
          (run_loop (suc (suc (suc (suc (suc k))))) ts sm [])
  loop_init k sm e path l l' =
      let s = record sm { last_state = init; state = transmit_init } in
      rw (loop_more ts (suc (suc (suc (suc k)))) sm s [] [] (round_init sm e) refl)
        (loop_transmit_init k s refl path l l')

  -- BEFORE_INIT and REACTION have no case, and the loop stops.
  loop_none :
      (k : ℕ) (sm : PortAnnounceTransmitSm)
      → (sm.state ≡ before_init) ⊎ (sm.state ≡ reaction)
      → Ends sm.instance_global sm.port sm.sequence_id (run_loop (suc k) ts sm [])
  unfolding run_loop round run_state
  loop_none k sm (inl e) = ground arith
  loop_none k sm (inr e) = ground arith

  loop-Ends :
      (sm : PortAnnounceTransmitSm)
      → IsResting sm.state ⊎ (sm.state ≡ transmit_init)
      → sm.instance_global.n_path_trace ≤ max_path_trace_n
      → IsLater ts sm.interval2
      → IsLater ts sm.port.announce_interval
      → Ends sm.instance_global sm.port sm.sequence_id (run_loop run_fuel ts sm [])
  loop-Ends sm rest path l l' = by_state sm.state refl rest
    where
      by_state :
          (s : State)
          → sm.state ≡ s
          → IsResting s ⊎ (s ≡ transmit_init)
          → Ends sm.instance_global sm.port sm.sequence_id (run_loop run_fuel ts sm [])
      by_state reaction e h = loop_none 5 sm (inr e)
      by_state before_init e h = loop_none 5 sm (inl e)
      by_state init e h = loop_init 1 sm e path l l'
      by_state transmit_init e h = loop_transmit_init 2 sm e path l l'
      by_state transmit_periodic e h = absurd (ground (arith, h))
      by_state idle e h = loop_idle 1 sm e path l l'
      by_state transmit_announce e h = absurd (ground (arith, h))

all_state_transition-cases :
    (sm : PortAnnounceTransmitSm)
    → (all_state_transition sm ≡ transmit_init) ⊎ (all_state_transition sm ≡ sm.state)
unfolding all_state_transition
all_state_transition-cases sm = ground arith

-- A run from rest ends within its fuel and at rest again, and sends nothing or one announcement,
-- which it sends only on a master port whose choice stands and that measures no asymmetry. Both
-- announce intervals are later than the time of the run, and the path trace has at most 8 entries.
pub port_announce_transmit_sm_run-Ends :
    (ts : UScaledNs) (sm : PortAnnounceTransmitSm)
    → IsResting sm.state
    → sm.instance_global.n_path_trace ≤ max_path_trace_n
    → IsLater ts sm.interval2
    → IsLater ts sm.port.announce_interval
    → Ends sm.instance_global sm.port sm.sequence_id (port_announce_transmit_sm_run ts sm)
unfolding port_announce_transmit_sm_run
port_announce_transmit_sm_run-Ends ts sm rest path l l' =
    let s = go (all_state_transition sm) sm in
    elim (all_state_transition-cases sm) [
      | inl forced ↦ loop-Ends ts s (inr forced) path l l'
      | inr same ↦ loop-Ends ts s (inl (rw same rest)) path l l'
    ]

-- The first run of a port, at time 0, ends at rest and sends nothing or one announcement, whose sequence
-- id is the random number, and only on a master port whose choice stands and that measures no
-- asymmetry. The number fits 16 bits, the announce interval is not 0, and the path trace has at most
-- 8 entries.
pub init_port_announce_transmit_sm-Ends :
    (random : ℕ) (sm : PortAnnounceTransmitSm)
    → random < 65536
    → sm.instance_global.n_path_trace ≤ max_path_trace_n
    → IsLater (record { subns = 0; nsec = 0; nsec_msb = 0 }) sm.port.announce_interval
    → Ends sm.instance_global sm.port random (init_port_announce_transmit_sm random sm)
unfolding init_port_announce_transmit_sm
init_port_announce_transmit_sm-Ends random sm h path l =
    let id : u16 random ≡ random = omega arith in
    subst (λ i. Ends sm.instance_global sm.port i (init_port_announce_transmit_sm random sm)) id
      (port_announce_transmit_sm_run-Ends _ _ tt path l l)
