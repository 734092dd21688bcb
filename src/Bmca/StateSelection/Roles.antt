-- ===== src/Bmca/StateSelection/Roles.antt =====
-- The roles that `updtStatesTree` gives the ports.
use ziggo_caa_s_switch.Prelude.{
  ℕ, true, false, ◌≡◌, ◌≢◌, ◌⊎◌, ◌↔◌, inl, inr, refl, sym, ap, subst, ◌∙◌, List, [], ◌∷◌, arith,
  Bool-cases, if◌then◌else◌, drop, map, All, Forall₂, length, suc, get_or,
}
use ziggo_caa_s_switch.Ptp.Priority.{
  PriorityVector, superior_priority, compare_priority_vectors, bytes,
}
use ziggo_caa_s_switch.Ptp.Priority.Memcmp.{memcmp_refl, memcmp-eq, memcmp_cases}
use ziggo_caa_s_switch.Ptp.Priority.Order.{IsWhole, bytes-injective, length-bytes}
use ziggo_caa_s_switch.Ptp.Globals.{
  PortState, PerPortGlobal, PerPtpInstanceGlobal, master_port, slave_port, passive_port,
  disabled_port, received, mine, aged, disabled,
}
use ziggo_caa_s_switch.Bmca.StateSelection.{
  gm_path_priority, port_state_update, update_ports, any_slave, same_bytes, updt_states_tree,
  choose_from_system, close_tree, with_master_priority,
}
use ziggo_caa_s_switch.Bmca.StateSelection.Choice.{gm_path_priority-IsWhole}
use ziggo_caa_s_switch.Bmca.StateSelection.Grandmaster.{
  updt_states_tree-chosen, port_state_update-gm, choose_from_system-kept,
}

-- The vector that a port announces as a master: the grandmaster's, sent by this clock.
abbrev pub master_vector : PriorityVector → List ℕ → PerPortGlobal → PriorityVector
master_vector gm clock p = record gm {
  source_port_clock_identity = clock;
  source_port_number = p.this_port;
  port_number = p.this_port;
}

-- The role of a port, from its data before the update, the grandmaster's vector and this clock.
pub record HasRole (gm : PriorityVector) (clock : List ℕ) (p : PerPortGlobal) (s : PortState)
    : Type 0 where
  pub slave_iff : (s ≡ slave_port) ↔ (
      (p.info_is ≡ received) × (p.asymmetry_measurement_mode ≡ false) × (gm_path_priority p ≡ gm))
  pub disabled_iff : (s ≡ disabled_port) ↔ (p.info_is ≡ disabled)
  pub master_iff : (s ≡ master_port) ↔ (
      (p.asymmetry_measurement_mode ≡ false)
      × ((p.info_is ≡ aged)
          ⊎ (p.info_is ≡ mine)
          ⊎ ((p.info_is ≡ received)
              × (gm_path_priority p ≢ gm)
              × (compare_priority_vectors (master_vector gm clock p) p.port_priority
                  ≡ superior_priority))))

same_bytes_iff : (a b : PriorityVector) → IsWhole a → IsWhole b → (same_bytes a b ≡ true) ↔ (a ≡ b)
same_bytes_iff a b u v = (
  λ e. bytes-injective a b u v (
      memcmp-eq (bytes a) (bytes b) (length-bytes a u ∙ sym (length-bytes b v))
        (ground (arith, memcmp_cases (bytes a) (bytes b)))),
  λ e. rw (e, memcmp_refl (bytes b)),
)

module _ (gm : PriorityVector) (clock : List ℕ) (g1 : PerPtpInstanceGlobal)
    (gm_eq : g1.gm_priority ≡ gm) (clock_eq : g1.this_clock ≡ clock) (u : IsWhole gm) where
  port_state_update-HasRole :
      (g : PerPtpInstanceGlobal) (s : PortState) (p : PerPortGlobal)
      → g.gm_priority ≡ gm
      → IsWhole (gm_path_priority p)
      → HasRole gm clock p
          (port_state_update g s (with_master_priority g1 p) (gm_path_priority p)).1
  unfolding port_state_update with_master_priority
  port_state_update-HasRole g s p e w = ground (arith, same_bytes_iff gm (gm_path_priority p) u w)

  update_ports-HasRole :
      (g : PerPtpInstanceGlobal) (ss : List PortState) (ps : List PerPortGlobal)
      → g.gm_priority ≡ gm
      → length ss ≡ length ps
      → All (λ p. IsWhole p.port_priority) ps
      → Forall₂
          (HasRole gm clock)
          ps
          (update_ports g ss (map (with_master_priority g1) ps) (map gm_path_priority ps)).1
  unfolding update_ports
  update_ports-HasRole g [] [] e h ws = tt
  update_ports-HasRole g [] (p ∷ ps) e h ws = absurd (omega arith)
  update_ports-HasRole g (s ∷ ss) [] e h ws = absurd (omega arith)
  update_ports-HasRole g (s ∷ ss) (p ∷ ps) e h (w, ws) =
      let p' = with_master_priority g1 p in
      let g' = (port_state_update g s p' (gm_path_priority p)).0 in
      (
        port_state_update-HasRole g s p e (gm_path_priority-IsWhole p w),
        update_ports-HasRole g' ss ps ((port_state_update-gm g s p' (gm_path_priority p)).0 ∙ e)
            (omega arith) ws,
      )

any_slave_iff : (ss : List PortState) → (any_slave ss ≡ false) ↔ All (λ s. s ≢ slave_port) ss
unfolding any_slave
any_slave_iff [] = (λ e. tt, λ a. refl)
any_slave_iff (slave_port ∷ ss) = (λ e. cc, λ a. absurd (a.0 refl))
any_slave_iff (master_port ∷ ss) =
    (λ e. ((λ h. cc), (any_slave_iff ss).0 e), λ a. (any_slave_iff ss).1 a.1)
any_slave_iff (passive_port ∷ ss) =
    (λ e. ((λ h. cc), (any_slave_iff ss).0 e), λ a. (any_slave_iff ss).1 a.1)
any_slave_iff (disabled_port ∷ ss) =
    (λ e. ((λ h. cc), (any_slave_iff ss).0 e), λ a. (any_slave_iff ss).1 a.1)

-- The states after the update: port 0 is the slave exactly if no other port is, and the other
-- ports have their roles.
pub record HasRoles (gm : PriorityVector) (clock : List ℕ) (ports : List PerPortGlobal)
    (states : List PortState) : Type 0 where
  pub roles : Forall₂ (HasRole gm clock) ports (drop 1 states)
  pub own_iff :
      (get_or states 0 disabled_port ≡ slave_port) ↔ All (λ s. s ≢ slave_port) (drop 1 states)

close_tree-states :
    (g : PerPtpInstanceGlobal) (ss : List PortState)
    → (close_tree g ss).selected_state ≡ (if any_slave ss then master_port else slave_port) ∷ ss
unfolding close_tree
close_tree-states g ss = ground arith

own_role :
    (ss : List PortState)
    → ((if any_slave ss then master_port else slave_port) ≡ slave_port)
      ↔ All (λ s. s ≢ slave_port) ss
own_role ss = elim (Bool-cases (any_slave ss)) [
  | inl e ↦ rw e ((λ h. cc), (λ a. cc ((any_slave_iff ss).1 a)))
  | inr e ↦ rw e ((λ h. (any_slave_iff ss).0 e), (λ a. refl))
]

close_tree-HasRoles :
    (gm : PriorityVector) (clock : List ℕ) (ports : List PerPortGlobal) (g : PerPtpInstanceGlobal)
    (ss : List PortState)
    → Forall₂ (HasRole gm clock) ports ss
    → HasRoles gm clock ports (close_tree g ss).selected_state
close_tree-HasRoles gm clock ports g ss r =
    rw (close_tree-states g ss) (record { roles = r; own_iff = own_role ss })

length-drop_one : (ss : List PortState) (n : ℕ) → length ss ≡ suc n → length (drop 1 ss) ≡ n
length-drop_one [] n h = absurd (omega arith)
length-drop_one (s ∷ ss) n h = omega arith

-- `updtStatesTree` gives the ports their roles. A port is a slave exactly if it has received the
-- grandmaster's vector and measures no asymmetry; it is disabled exactly if its information is; it
-- is a master exactly if it measures no asymmetry and its information is aged, its own, or received
-- with another path vector and a port priority to which its master priority is superior. Port 0 is
-- the slave exactly if no other port is one. The identities have eight bytes, and there is one state
-- for port 0 and one for each port.
pub updt_states_tree-HasRoles :
    (g : PerPtpInstanceGlobal) (ports : List PerPortGlobal)
    → IsWhole g.system_priority
    → All (λ p. IsWhole p.port_priority) ports
    → length g.selected_state ≡ suc (length ports)
    → let g' = (updt_states_tree g ports).0 in
      HasRoles g'.gm_priority g.this_clock ports g'.selected_state
unfolding updt_states_tree
updt_states_tree-HasRoles g ports w ws h =
    let g1 = choose_from_system g ports in
    let g2 = record g1 { master_steps_removed = g1.gm_priority.steps_removed } in
    let ss = drop 1 g1.selected_state in
    let ps = map (with_master_priority g1) ports in
    let vs = map gm_path_priority ports in
    let (whole, clock_kept, states_kept) = choose_from_system-kept g ports w ws in
    let enough = length-drop_one g1.selected_state (length ports) (ap length states_kept ∙ h) in
    subst
      (λ gm.
        HasRoles gm g.this_clock ports
          (close_tree (update_ports g2 ss ps vs).0 (update_ports g2 ss ps vs).1).selected_state)
      (sym (updt_states_tree-chosen g ports).0)
      (close_tree-HasRoles g1.gm_priority g.this_clock ports (update_ports g2 ss ps vs).0
        (update_ports g2 ss ps vs).1
        (update_ports-HasRole g1.gm_priority g.this_clock g1 refl clock_kept whole g2 ss ports refl
          enough ws))
