-- ===== src/Bmca/StateSelection/Grandmaster.antt =====
-- `updtStatesTree` chooses the best of the vectors that may become the grandmaster's.
use ziggo_caa_s_switch.Prelude.{◌≡◌, ◌⊎◌, refl, ◌∙◌, List, [], ◌∷◌, arith, drop, map, All, Any}
use ziggo_caa_s_switch.Ptp.Priority.{PriorityVector}
use ziggo_caa_s_switch.Ptp.Priority.Order.{IsWhole}
use ziggo_caa_s_switch.Ptp.Globals.{PortState, PerPortGlobal, PerPtpInstanceGlobal}
use ziggo_caa_s_switch.Bmca.StateSelection.{
  gm_path_priority, consider, choose_gm, port_state_update, update_ports, updt_states_tree,
  choose_from_system, close_tree, with_master_priority,
}
use ziggo_caa_s_switch.Bmca.StateSelection.Choice.{
  NotBeaten, IsEligible, choose_gm-best, choose_gm-clock, choose_gm-source,
}

-- The fields of the instance that the roles of the ports do not touch.
abbrev pub SameChoice : PerPtpInstanceGlobal → PerPtpInstanceGlobal → Type 0
SameChoice g' g =
    (g'.gm_priority ≡ g.gm_priority)
    × (g'.time ≡ g.time)
    × (g'.this_clock ≡ g.this_clock)
    × (g'.reselect ≡ g.reselect)
    × (g'.master_steps_removed ≡ g.master_steps_removed)

pub port_state_update-gm :
    (g : PerPtpInstanceGlobal) (s : PortState) (p : PerPortGlobal) (v : PriorityVector)
    → SameChoice (port_state_update g s p v).0 g
unfolding port_state_update
port_state_update-gm g s p v = ground arith

update_ports-gm :
    (g : PerPtpInstanceGlobal) (ss : List PortState) (ps : List PerPortGlobal)
    (vs : List PriorityVector)
    → SameChoice (update_ports g ss ps vs).0 g
unfolding update_ports
update_ports-gm g [] ps vs = (refl, refl, refl, refl, refl)
update_ports-gm g (s ∷ ss) [] vs = (refl, refl, refl, refl, refl)
update_ports-gm g (s ∷ ss) (p ∷ ps) [] = (refl, refl, refl, refl, refl)
update_ports-gm g (s ∷ ss) (p ∷ ps) (v ∷ vs) =
    let one = port_state_update-gm g s p v in
    let rest = update_ports-gm (port_state_update g s p v).0 ss ps vs in
    (rest.0 ∙ one.0, rest.1 ∙ one.1, rest.2 ∙ one.2, rest.3 ∙ one.3, rest.4 ∙ one.4)

close_tree-gm : (g : PerPtpInstanceGlobal) (ss : List PortState) → SameChoice (close_tree g ss) g
unfolding close_tree
close_tree-gm g ss = ground arith

pub updt_states_tree-chosen :
    (g : PerPtpInstanceGlobal) (ports : List PerPortGlobal)
    → let g1 = choose_from_system g ports in
      SameChoice
        (updt_states_tree g ports).0
        (record g1 { master_steps_removed = g1.gm_priority.steps_removed })
unfolding updt_states_tree
updt_states_tree-chosen g ports =
    let g1 = choose_from_system g ports in
    let g2 = record g1 { master_steps_removed = g1.gm_priority.steps_removed } in
    let ss = drop 1 g1.selected_state in
    let ps = map (with_master_priority g1) ports in
    let vs = map gm_path_priority ports in
    let one = close_tree-gm (update_ports g2 ss ps vs).0 (update_ports g2 ss ps vs).1 in
    let two = update_ports-gm g2 ss ps vs in
    (one.0 ∙ two.0, one.1 ∙ two.1, one.2 ∙ two.2, one.3 ∙ two.3, one.4 ∙ two.4)

-- The choice that leads from `g` and the ports' data to `g'`: neither the system's vector nor the
-- path vector of an eligible port is superior to the grandmaster's, which is one of them, with the
-- time properties that belong to it.
pub record IsBest (g : PerPtpInstanceGlobal) (ports : List PerPortGlobal)
    (g' : PerPtpInstanceGlobal) : Type 0 where
  pub system : NotBeaten g'.gm_priority g.system_priority
  pub eligible :
      All (λ p. IsEligible g.this_clock p → NotBeaten g'.gm_priority (gm_path_priority p)) ports
  pub source :
      ((g'.gm_priority ≡ g.system_priority) × (g'.time ≡ g.sys_time))
      ⊎ Any
          (λ p.
            IsEligible g.this_clock p
            × (g'.gm_priority ≡ gm_path_priority p)
            × (g'.time ≡ p.ann_time))
          ports
  pub steps : g'.master_steps_removed ≡ g'.gm_priority.steps_removed

-- `updtStatesTree` makes the best choice: the grandmaster's vector is the system's own or the path
-- vector of an eligible port, with the time properties from there; none of these vectors is
-- superior to it; `masterStepsRemoved` is its `stepsRemoved`. The identities in all vectors have
-- eight bytes.
pub updt_states_tree-IsBest :
    (g : PerPtpInstanceGlobal) (ports : List PerPortGlobal)
    → IsWhole g.system_priority
    → All (λ p. IsWhole p.port_priority) ports
    → IsBest g ports (updt_states_tree g ports).0
unfolding choose_from_system
updt_states_tree-IsBest g ports w ws =
    let c = updt_states_tree-chosen g ports in
    let start = record g {
      last_gm_priority = g.gm_priority;
      gm_priority = g.system_priority;
      time = g.sys_time;
    } in
    let best = choose_gm-best g.this_clock ports start refl w ws in
    let source = choose_gm-source g.this_clock ports start refl in
    record {
      system = rw c.0 best.1;
      eligible = rw c.0 best.2;
      source = rw (c.0, c.1) source;
      steps = rw (c.4, c.0);
    }

consider-states :
    (g : PerPtpInstanceGlobal) (p : PerPortGlobal)
    → ((consider g p).selected_state ≡ g.selected_state) × ((consider g p).reselect ≡ g.reselect)
unfolding consider
consider-states g p = ground arith

choose_gm-states :
    (ps : List PerPortGlobal) (g : PerPtpInstanceGlobal)
    → ((choose_gm g ps).selected_state ≡ g.selected_state)
      × ((choose_gm g ps).reselect ≡ g.reselect)
unfolding choose_gm
choose_gm-states [] g = (refl, refl)
choose_gm-states (p ∷ ps) g =
    let rest = choose_gm-states ps (consider g p) in
    let one = consider-states g p in (rest.0 ∙ one.0, rest.1 ∙ one.1)

pub choose_from_system-reselect :
    (g : PerPtpInstanceGlobal) (ports : List PerPortGlobal)
    → (choose_from_system g ports).reselect ≡ g.reselect
unfolding choose_from_system
choose_from_system-reselect g ports = (choose_gm-states ports _).1

-- What the choice of the grandmaster leaves, for the assignment of roles.
pub choose_from_system-kept :
    (g : PerPtpInstanceGlobal) (ports : List PerPortGlobal)
    → IsWhole g.system_priority
    → All (λ p. IsWhole p.port_priority) ports
    → IsWhole (choose_from_system g ports).gm_priority
      × ((choose_from_system g ports).this_clock ≡ g.this_clock)
      × ((choose_from_system g ports).selected_state ≡ g.selected_state)
unfolding choose_from_system
choose_from_system-kept g ports w ws =
    let start = record g {
      last_gm_priority = g.gm_priority;
      gm_priority = g.system_priority;
      time = g.sys_time;
    } in
    (
      (choose_gm-best g.this_clock ports start refl w ws).0,
      choose_gm-clock g.this_clock ports start refl,
      (choose_gm-states ports start).0,
    )
