-- ===== src/Bmca/AnnounceInfo/Loops.antt =====
-- The ways of the PortAnnounceInformation loop from each state to rest.
use ziggo_caa_s_switch.Prelude.{
  ℕ, suc, ◌≡◌, ◌⊎◌, inl, inr, true, false, arith, ◌==◌, Bool-cases, Option-cases, ◌∙◌, ap,
}
use ziggo_caa_s_switch.Ptp.ScaledNs.{UScaledNs}
use ziggo_caa_s_switch.Ptp.Globals.{PerPortGlobal}
use ziggo_caa_s_switch.Bmca.AnnounceInfo.{
  State, before_init, init, disabled_state, aged_state, update, current, receive,
  inferior_master_or_other_port, repeated_master_port, superior_master_port,
  PortAnnounceInformationSm,
}
use ziggo_caa_s_switch.Bmca.AnnounceInfo.Machine.{
  ordinal, round, Outcome, done, undefined, out_of_fuel, run_loop,
}
use ziggo_caa_s_switch.Bmca.AnnounceInfo.Safety.{
  HoldsMessage, IsReady, Goes, round_aged_enter, round_current, round_update, round_inferior,
  round_repeated, round_superior, round_receive, round_aged, round_disabled, round_init,
  round_before_init,
}

-- The states that the machine leaves within a run.
abbrev pub IsResting : State → Type 0
IsResting update = ⊥
IsResting inferior_master_or_other_port = ⊥
IsResting repeated_master_port = ⊥
IsResting superior_master_port = ⊥
IsResting _ = Unit

-- The run has ended in a machine that is ready for the next call.
abbrev pub Ends : Outcome → Type 0
Ends (done sm) = IsReady sm × IsResting sm.state
Ends undefined = ⊥
Ends out_of_fuel = ⊥

module _ (ts : UScaledNs) where
  -- A round with a known outcome, and what the loop makes of it.
  loop_step :
      (P : PortAnnounceInformationSm → Type 0) (fuel : ℕ) (sm : PortAnnounceInformationSm)
      → Goes P (round ts sm)
      → ((s : PortAnnounceInformationSm)
          → P s
          → (ordinal s.last_state == ordinal s.state) ≡ true
          → IsReady s × IsResting s.state)
      → ((s : PortAnnounceInformationSm)
          → P s
          → (ordinal s.last_state == ordinal s.state) ≡ false
          → Ends (run_loop fuel ts s))
      → Ends (run_loop (suc fuel) ts sm)
  unfolding run_loop
  loop_step P fuel sm p stop more = elim (Option-cases (round ts sm)) [
    | inl bad ↦ absurd (rw bad at p)
    | inr (s, e) ↦
        let p' = rw e at p in
        elim (Bool-cases (ordinal s.last_state == ordinal s.state)) [
          | inl same ↦ rw (e, run_loop) (rw same (stop s p' same))
          | inr other ↦ rw (e, run_loop) (rw other (more s p' other))
        ]
  ]

  loop_aged_enter :
      (k : ℕ) (sm : PortAnnounceInformationSm)
      → IsReady sm
      → sm.state ≡ aged_state
      → (ordinal sm.last_state == 3) ≡ false
      → Ends (run_loop (suc k) ts sm)
  loop_aged_enter k sm r e h =
      loop_step _ k sm (round_aged_enter ts sm r e h) (λ s p q. (p.2, ground (arith, p)))
        (λ s p q. ground arith)

  -- CURRENT with no message and no update goes to AGED at most.
  loop_current_quiet :
      (k : ℕ) (sm : PortAnnounceInformationSm)
      → IsReady sm
      → sm.state ≡ current
      → sm.port.rcvd_msg ≡ false
      → sm.port.updt_info ≡ false
      → Ends (run_loop (suc (suc k)) ts sm)
  loop_current_quiet k sm r e h h' =
      loop_step _ (suc k) sm (round_current ts sm r e) (λ s p q. (p.1, ground (arith, p)))
        (λ s p q. ground (arith, loop_aged_enter k s p.1, p))

  -- With no message, an update is made once.
  loop_update_quiet :
      (k : ℕ) (sm : PortAnnounceInformationSm)
      → IsReady sm
      → sm.state ≡ update
      → (ordinal sm.last_state == 4) ≡ false
      → sm.port.rcvd_msg ≡ false
      → Ends (run_loop (suc (suc (suc k))) ts sm)
  loop_update_quiet k sm r e h h' =
      loop_step _ (suc (suc k)) sm (round_update ts sm r e) (λ s p q. (p.1, ground (arith, p)))
        (λ s p q. loop_current_quiet k s p.1 p.2 (p.3 ∙ h') (p.4 h))

  loop_current_read :
      (k : ℕ) (sm : PortAnnounceInformationSm)
      → IsReady sm
      → sm.state ≡ current
      → sm.port.rcvd_msg ≡ false
      → Ends (run_loop (suc (suc (suc (suc k)))) ts sm)
  loop_current_read k sm r e h =
      loop_step _ (suc (suc (suc k))) sm (round_current ts sm r e)
        (λ s p q. (p.1, ground (arith, p)))
        (λ s p q. ground (
          arith,
          loop_aged_enter (suc (suc k)) s p.1,
          loop_update_quiet k s p.1,
          ap (λ (u : PerPortGlobal). u.rcvd_msg) p.2,
          p,
        ))

  -- The answer to a message clears it.
  loop_answer :
      (k : ℕ) (sm : PortAnnounceInformationSm)
      → IsReady sm
      → HoldsMessage sm.rcvd_announce
      → (sm.state ≡ inferior_master_or_other_port)
        ⊎ (sm.state ≡ repeated_master_port)
        ⊎ (sm.state ≡ superior_master_port)
      → (ordinal sm.last_state == 6) ≡ true
      → Ends (run_loop (suc (suc (suc (suc (suc k))))) ts sm)
  loop_answer k sm r m (inl e) h =
      loop_step _ (suc (suc (suc (suc k)))) sm (round_inferior ts sm r e)
        (λ s p q. (p.1, ground (arith, p)))
        (λ s p q. loop_current_read k s p.1 p.2 (p.3 (ground arith)))
  loop_answer k sm r m (inr (inl e)) h =
      loop_step _ (suc (suc (suc (suc k)))) sm (round_repeated ts sm r e (λ _. m))
        (λ s p q. (p.1, ground (arith, p)))
        (λ s p q. loop_current_read k s p.1 p.2 (p.3 (ground arith)))
  loop_answer k sm r m (inr (inr e)) h =
      loop_step _ (suc (suc (suc (suc k)))) sm (round_superior ts sm r e (λ _. m))
        (λ s p q. (p.1, ground (arith, p)))
        (λ s p q. loop_current_read k s p.1 p.2 (p.3 (ground arith)))

  pub loop_receive :
      (k : ℕ) (sm : PortAnnounceInformationSm)
      → IsReady sm
      → sm.state ≡ receive
      → Ends (run_loop (suc (suc (suc (suc (suc (suc k)))))) ts sm)
  loop_receive k sm r e =
      loop_step _ (suc (suc (suc (suc (suc k))))) sm (round_receive ts sm r e)
        (λ s p q. (p.1, ground (arith, p)))
        (λ s p q. elim p.3 [
          | inl same ↦ ground arith
          | inr answer ↦ loop_answer k s p.1 p.2 answer (ground (arith, p))
        ])

  -- With no update to make, CURRENT reads its message.
  loop_current_updated :
      (k : ℕ) (sm : PortAnnounceInformationSm)
      → IsReady sm
      → sm.state ≡ current
      → sm.port.updt_info ≡ false
      → Ends (run_loop (suc (suc (suc (suc (suc (suc (suc k))))))) ts sm)
  loop_current_updated k sm r e h =
      loop_step _ (suc (suc (suc (suc (suc (suc k)))))) sm (round_current ts sm r e)
        (λ s p q. (p.1, ground (arith, p)))
        (λ s p q.
          ground
            (arith, loop_aged_enter (suc (suc (suc (suc (suc k))))) s p.1, loop_receive k s p.1, p))

  loop_update :
      (k : ℕ) (sm : PortAnnounceInformationSm)
      → IsReady sm
      → sm.state ≡ update
      → (ordinal sm.last_state == 4) ≡ false
      → Ends (run_loop (suc (suc (suc (suc (suc (suc (suc (suc k)))))))) ts sm)
  loop_update k sm r e h =
      loop_step _ (suc (suc (suc (suc (suc (suc (suc k))))))) sm (round_update ts sm r e)
        (λ s p q. (p.1, ground (arith, p))) (λ s p q. loop_current_updated k s p.1 p.2 (p.4 h))

  pub loop_current :
      (sm : PortAnnounceInformationSm) → IsReady sm → sm.state ≡ current → Ends (run_loop 12 ts sm)
  loop_current sm r e =
      loop_step _ 11 sm (round_current ts sm r e) (λ s p q. (p.1, ground (arith, p)))
        (λ s p q.
          ground (arith, loop_aged_enter 10 s p.1, loop_receive 5 s p.1, loop_update 3 s p.1, p))

  pub loop_aged :
      (sm : PortAnnounceInformationSm)
      → IsReady sm
      → sm.state ≡ aged_state
      → Ends (run_loop 12 ts sm)
  loop_aged sm r e =
      loop_step _ 11 sm (round_aged ts sm r e) (λ s p q. (p.1, ground (arith, p)))
        (λ s p q. ground (arith, loop_update 3 s p.1, p))

  pub loop_disabled :
      (k : ℕ) (sm : PortAnnounceInformationSm)
      → IsReady sm
      → sm.state ≡ disabled_state
      → Ends (run_loop (suc (suc k)) ts sm)
  loop_disabled k sm r e =
      loop_step _ (suc k) sm (round_disabled ts sm r e) (λ s p q. (p.1, ground (arith, p)))
        (λ s p q. ground (arith, loop_aged_enter k s p.1, p))

  pub loop_init :
      (sm : PortAnnounceInformationSm) → IsReady sm → sm.state ≡ init → Ends (run_loop 12 ts sm)
  loop_init sm r e =
      loop_step _ 11 sm (round_init ts sm r e) (λ s p q. (p.1, ground (arith, p)))
        (λ s p q. loop_disabled 9 s p.1 p.2)

  pub loop_before_init :
      (sm : PortAnnounceInformationSm)
      → IsReady sm
      → sm.state ≡ before_init
      → Ends (run_loop 12 ts sm)
  loop_before_init sm r e =
      loop_step _ 11 sm (round_before_init ts sm r e) (λ s p q. (p.1, ground (arith, p)))
        (λ s p q. absurd (ground (arith, p)))
