-- ===== src/Bmca/StateSelection/Settles.antt =====
-- The loop of `port_state_selection_sm_run` ends, and with nothing left to select.
use ziggo_caa_s_switch.Prelude.{
  ℕ, suc, ◌+◌, false, ◌≡◌, ◌⊎◌, inl, inr, refl, ◌∙◌, ap, List, arith, ◌==◌, Option, some, none,
  replicate,
}
use ziggo_caa_s_switch.Ptp.Globals.{PerPortGlobal, PerPtpInstanceGlobal, n_ports}
use ziggo_caa_s_switch.Bmca.StateSelection.{updt_states_tree}
use ziggo_caa_s_switch.Bmca.StateSelection.Grandmaster.{
  updt_states_tree-chosen, choose_from_system-reselect,
}
use ziggo_caa_s_switch.Bmca.StateSelection.Machine.{
  State, before_init, init, init_bridge, state_selection, reaction, ordinal, PortStateSelectionSm,
  all_state_transition, state_selection_action, any, round, run_loop, run_fuel,
  port_state_selection_sm_run,
}

-- Selection has been done: no port asks for reselection, and no change is pending.
pub record IsSettled (sm : PortStateSelectionSm) : Type 0 where
  pub state_eq : sm.state ≡ state_selection
  pub last_state_eq : sm.last_state ≡ state_selection
  pub no_reselect : any sm.instance_global.reselect ≡ false
  pub no_identity_change : sm.system_identity_change ≡ false
  pub no_asymmetry_change : sm.asymmetry_measurement_mode_change ≡ false

abbrev pub Settles : Option (PortStateSelectionSm × Option (List ℕ)) → Type 0
Settles none = ⊥
Settles (some (sm, retp)) = IsSettled sm

abbrev pub Stays : PortStateSelectionSm → Option (PortStateSelectionSm × Option (List ℕ)) → Type 0
Stays sm none = ⊥
Stays sm (some (sm', retp)) = (retp ≡ none) × (sm' ≡ record sm { last_state = sm.state })

-- How a run that starts in the state `s` ends: in a settled machine, or, where nothing leads out of
-- `s`, in the machine that it starts from.
abbrev pub Ends :
    State → PortStateSelectionSm → Option (PortStateSelectionSm × Option (List ℕ)) → Type 0
Ends before_init sm o = Stays sm o
Ends reaction sm o = Stays sm o
Ends _ sm o = Settles o

updt_states_tree-reselect :
    (g : PerPtpInstanceGlobal) (ports : List PerPortGlobal)
    → (updt_states_tree g ports).0.reselect ≡ g.reselect
updt_states_tree-reselect g ports =
    (updt_states_tree-chosen g ports).3 ∙ choose_from_system-reselect g ports

state_selection_action-reselect :
    (sm : PortStateSelectionSm)
    → let sm' = (state_selection_action sm).0 in
      (sm'.instance_global.reselect ≡ replicate (n_ports + 1) false)
      × (sm'.system_identity_change ≡ false)
      × (sm'.asymmetry_measurement_mode_change ≡ false)
      × (sm'.state ≡ sm.state)
      × (sm'.last_state ≡ sm.last_state)
unfolding state_selection_action
state_selection_action-reselect sm = (
  updt_states_tree-reselect (record sm.instance_global { reselect = replicate (n_ports + 1) false })
      sm.ports,
  refl,
  refl,
  refl,
  refl,
)

State-cases : (s : State) → (s ≡ state_selection) ⊎ ((ordinal s == 3) ≡ false)
State-cases state_selection = inl refl
State-cases s = inr refl

-- A round that enters STATE_SELECTION settles the machine.
round_enters :
    (sm : PortStateSelectionSm)
    → sm.state ≡ state_selection
    → (ordinal sm.last_state == 3) ≡ false
    → IsSettled (round sm).0
unfolding round
round_enters sm e h = ground (
  arith,
  state_selection_action-reselect (record sm { last_state = sm.state }),
  ap any (state_selection_action-reselect (record sm { last_state = sm.state })).0,
)

-- A round that finds STATE_SELECTION entered settles it or asks for another round.
round_stays :
    (sm : PortStateSelectionSm)
    → sm.state ≡ state_selection
    → sm.last_state ≡ state_selection
    → (IsSettled (round sm).0 × ((round sm).1 ≡ none))
      ⊎ (((round sm).0.state ≡ state_selection)
          × ((round sm).0.last_state ≡ reaction)
          × ((round sm).1 ≡ none))
unfolding round
round_stays sm e h = ground arith

-- A round in one of the first states goes on to the next.
round_init :
    (sm : PortStateSelectionSm)
    → sm.state ≡ init
    → ((round sm).0.state ≡ init_bridge) × ((round sm).0.last_state ≡ init) × ((round sm).1 ≡ none)
unfolding round
round_init sm e = ground arith

round_init_bridge :
    (sm : PortStateSelectionSm)
    → sm.state ≡ init_bridge
    → ((round sm).0.state ≡ state_selection)
      × ((round sm).0.last_state ≡ init_bridge)
      × ((round sm).1 ≡ none)
unfolding round
round_init_bridge sm e = ground arith

module _ (fuel : ℕ) (sm : PortStateSelectionSm) where
  loop_enters :
      sm.state ≡ state_selection
      → (ordinal sm.last_state == 3) ≡ false
      → Settles (run_loop (suc fuel) sm)
  unfolding run_loop
  loop_enters e h = ground (arith, round_enters sm e h)

module _ (fuel : ℕ) (sm : PortStateSelectionSm) where
  loop_selection : sm.state ≡ state_selection → Settles (run_loop (suc (suc fuel)) sm)
  unfolding run_loop
  loop_selection e = elim (State-cases sm.last_state) [
    | inr other ↦ loop_enters (suc fuel) sm e other
    | inl same ↦ ground (arith, round_stays sm e same, loop_enters fuel (round sm).0)
  ]

  loop_init_bridge : sm.state ≡ init_bridge → Settles (run_loop (suc (suc fuel)) sm)
  unfolding run_loop
  loop_init_bridge e = ground (arith, round_init_bridge sm e, loop_enters fuel (round sm).0)

-- Entered in INIT, the loop goes over INIT_BRIDGE to STATE_SELECTION.
loop_init : (sm : PortStateSelectionSm) → sm.state ≡ init → Settles (run_loop run_fuel sm)
unfolding run_loop
loop_init sm e = ground (arith, round_init sm e, loop_init_bridge 2 (round sm).0)

loop_rest :
    (sm : PortStateSelectionSm)
    → (sm.state ≡ before_init) ⊎ (sm.state ≡ reaction)
    → Stays sm (run_loop run_fuel sm)
unfolding run_loop round
loop_rest sm e = ground arith

loop-Ends : (sm : PortStateSelectionSm) → Ends sm.state sm (run_loop run_fuel sm)
loop-Ends sm = by_state sm.state refl
  where
    by_state : (s : State) → sm.state ≡ s → Ends s sm (run_loop run_fuel sm)
    by_state before_init e = loop_rest sm (inl e)
    by_state init e = loop_init sm e
    by_state init_bridge e = loop_init_bridge 3 sm e
    by_state state_selection e = loop_selection 3 sm e
    by_state reaction e = loop_rest sm (inr e)

-- `port_state_selection_sm_run` ends from every machine within the five rounds of its fuel. A run that
-- starts, after the transition for all states, in INIT, INIT_BRIDGE or STATE_SELECTION leaves the
-- machine in STATE_SELECTION with no port asking for reselection and no change pending. A run that
-- starts in BEFORE_INIT or REACTION returns nothing and changes no more than the last state.
pub port_state_selection_sm_run-Ends :
    (sm : PortStateSelectionSm)
    → Ends
        (all_state_transition sm)
        (record sm { state = all_state_transition sm })
        (port_state_selection_sm_run sm)
unfolding port_state_selection_sm_run
port_state_selection_sm_run-Ends sm = loop-Ends (record sm { state = all_state_transition sm })
