-- ===== src/Bmca/StateSelection/Examples.antt =====
-- Runs of the machine on a bridge with one announcing neighbour, and the theorems at its data.
use ziggo_caa_s_switch.Prelude.{◌≡◌, refl, false, [], ◌∷◌, arith, replicate, some, All}
use ziggo_caa_s_switch.Ptp.Priority.{memcmp, bytes, compare_priority_vectors}
use ziggo_caa_s_switch.Ptp.Priority.Order.{IsWhole}
use ziggo_caa_s_switch.Ptp.Globals.{master_port, slave_port, disabled_port}
use ziggo_caa_s_switch.Bmca.Samples.{bridge, bridge_ports}
use ziggo_caa_s_switch.Bmca.StateSelection.{
  updt_states_tree, choose_from_system, choose_gm, consider, gm_path_priority, close_tree,
  any_slave, update_ports, port_state_update, with_master_priority,
}
use ziggo_caa_s_switch.Bmca.StateSelection.Grandmaster.{IsBest, updt_states_tree-IsBest}
use ziggo_caa_s_switch.Bmca.StateSelection.Roles.{HasRoles, updt_states_tree-HasRoles}
use ziggo_caa_s_switch.Bmca.StateSelection.Machine.{
  PortStateSelectionSm, all_state_transition, port_state_selection_sm_run, init, before_init,
}
use ziggo_caa_s_switch.Bmca.StateSelection.Settles.{Ends, port_state_selection_sm_run-Ends}

bridge_roles :
    (updt_states_tree bridge bridge_ports).0.selected_state
    ≡ master_port ∷ slave_port ∷ master_port ∷ disabled_port ∷ disabled_port ∷ []
unfolding updt_states_tree choose_from_system choose_gm consider gm_path_priority close_tree
    any_slave update_ports port_state_update with_master_priority memcmp bytes
    compare_priority_vectors
bridge_roles = refl

bridge_gm : (updt_states_tree bridge bridge_ports).2 ≡ some (replicate 8 7)
unfolding updt_states_tree choose_from_system choose_gm consider gm_path_priority memcmp bytes
    compare_priority_vectors
bridge_gm = refl

abbrev machine : PortStateSelectionSm
machine = record {
  system_identity_change = false;
  asymmetry_measurement_mode_change = false;
  instance_global = bridge;
  ports = bridge_ports;
  state = init;
  last_state = before_init;
}

port_state_selection_sm_run-Ends_example :
    Ends
      (all_state_transition machine)
      (record machine { state = all_state_transition machine })
      (port_state_selection_sm_run machine)
port_state_selection_sm_run-Ends_example = port_state_selection_sm_run-Ends machine

bridge_ports-IsWhole : All (λ p. IsWhole p.port_priority) bridge_ports
bridge_ports-IsWhole = omega arith

updt_states_tree-HasRoles_example :
    HasRoles
      (updt_states_tree bridge bridge_ports).0.gm_priority
      (replicate 8 1)
      bridge_ports
      (updt_states_tree bridge bridge_ports).0.selected_state
updt_states_tree-HasRoles_example =
    updt_states_tree-HasRoles bridge bridge_ports (omega arith) bridge_ports-IsWhole refl

updt_states_tree-IsBest_example :
    IsBest bridge bridge_ports (updt_states_tree bridge bridge_ports).0
updt_states_tree-IsBest_example =
    updt_states_tree-IsBest bridge bridge_ports (omega arith) bridge_ports-IsWhole
