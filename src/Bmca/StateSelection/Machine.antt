-- ===== src/Bmca/StateSelection/Machine.antt =====
-- The PortStateSelection machine (time_sync/port_state_selection_sm.c): its struct, with the
-- shared structs that its pointers name, its states and its loop.
use ziggo_caa_s_switch.Prelude.{
  ℕ, zero, suc, ◌+◌, Bool, true, false, not, ◌&&◌, ◌||◌, List, [], ◌∷◌, Option, none, some, ◌==◌,
  if◌then◌else◌, replicate,
}
use ziggo_caa_s_switch.Ptp.Globals.{n_ports, PerPortGlobal, PerPtpInstanceGlobal}
use ziggo_caa_s_switch.Bmca.StateSelection.{updt_state_disabled_tree, updt_states_tree}

pub data State : Type 0 where
  before_init init init_bridge state_selection reaction : State

-- An enumerator is its number.
abbrev pub ordinal : State → ℕ
ordinal before_init = 0
ordinal init = 1
ordinal init_bridge = 2
ordinal state_selection = 3
ordinal reaction = 4

pub record PortStateSelectionSm : Type 0 where
  pub system_identity_change : Bool
  pub asymmetry_measurement_mode_change : Bool
  pub instance_global : PerPtpInstanceGlobal
  pub ports : List PerPortGlobal
  pub state : State
  pub last_state : State

unfoldable pub all_state_transition : PortStateSelectionSm → State
all_state_transition sm =
    if (begin || not instance_enable) && not external_port_configuration_enabled
    then init_bridge
    else sm.state
  where
    open sm.instance_global use {begin, instance_enable, external_port_configuration_enabled}

unfoldable pub state_selection_action :
    PortStateSelectionSm → PortStateSelectionSm × Option (List ℕ)
state_selection_action sm =
    let g = record sm.instance_global { reselect = replicate (n_ports + 1) false } in
    let (g', ports', changed) = updt_states_tree g sm.ports in
    (
      record sm {
        system_identity_change = false;
        asymmetry_measurement_mode_change = false;
        instance_global = record g' { selected = replicate (n_ports + 1) true };
        ports = ports';
      },
      changed,
    )

abbrev pub any : List Bool → Bool
any [] = false
any (b ∷ bs) = b || any bs

-- The first five entries are the whole array.
unfoldable pub state_selection_state_transition : PortStateSelectionSm → PortStateSelectionSm
state_selection_state_transition sm =
    if any sm.instance_global.reselect
      || sm.system_identity_change
      || sm.asymmetry_measurement_mode_change
    then record sm { last_state = reaction; state = state_selection }
    else sm

-- One round of the loop, the assignment of `last_state` included.
run_state : State → Bool → PortStateSelectionSm → PortStateSelectionSm × Option (List ℕ)
unfolding state_selection_state_transition
run_state before_init change sm = (sm, none)
run_state init change sm = (record sm { state = init_bridge }, none)
run_state init_bridge change sm = (
  record sm {
    instance_global =
        (if change then updt_state_disabled_tree sm.instance_global else sm.instance_global);
    state = state_selection;
  },
  none,
)
run_state state_selection change sm =
    let (sm', retp) = (if change then state_selection_action sm else (sm, none)) in
    (state_selection_state_transition sm', retp)
run_state reaction change sm = (sm, none)

unfoldable pub round : PortStateSelectionSm → PortStateSelectionSm × Option (List ℕ)
unfolding run_state
round sm =
    run_state sm.state (not (ordinal sm.last_state == ordinal sm.state))
      (record sm { last_state = sm.state })

-- The loop, with fuel; `none` would be a loop that has not ended.
unfoldable pub run_loop : ℕ → PortStateSelectionSm → Option (PortStateSelectionSm × Option (List ℕ))
run_loop zero sm = none
run_loop (suc fuel) sm =
    let (sm', retp) = round sm in
    let rest = run_loop fuel sm' in
    elim retp [
      | some identity ↦ some (sm', some identity)
      | none ↦ if ordinal sm'.last_state == ordinal sm'.state then some (sm', none) else rest
    ]

abbrev pub run_fuel : ℕ
run_fuel = 5

unfoldable pub port_state_selection_sm_run :
    PortStateSelectionSm → Option (PortStateSelectionSm × Option (List ℕ))
unfolding all_state_transition
port_state_selection_sm_run sm = run_loop run_fuel (record sm { state = all_state_transition sm })

unfoldable pub init_port_state_selection_sm :
    PerPtpInstanceGlobal → List PerPortGlobal → Option (PortStateSelectionSm × Option (List ℕ))
init_port_state_selection_sm g ports = port_state_selection_sm_run (record {
  system_identity_change = false;
  asymmetry_measurement_mode_change = false;
  instance_global = g;
  ports = ports;
  state = init;
  last_state = before_init;
})
