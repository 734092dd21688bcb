-- ===== src/Bmca/StateSelection.antt =====
-- `updtStatesTree` and its parts: how the ports' roles follow from the priority vectors
-- (time_sync/port_state_selection_sm.c). Log calls are left out. A pointer result is `none` for NULL
-- and otherwise the identity that it points to.
pub mod Machine
pub mod Choice
pub mod Grandmaster
pub mod Roles
pub mod Settles
mod Examples
use ziggo_caa_s_switch.Prelude.{
  ℕ, zero, suc, ◌+◌, ◌*◌, Bool, true, false, not, ◌&&◌, ◌||◌, List, [], ◌∷◌, ◌++◌, Option, none,
  some, ltb, leb, ◌==◌, if◌then◌else◌, get_or, set, take, drop, replicate, min, map, u16,
}
use ziggo_caa_s_switch.Ptp.Priority.{
  SystemIdentity, PriorityVector, memcmp, is_zero, bytes, PriorityComparison, same_priority,
  superior_priority, inferior_priority, compare_priority_vectors,
}
use ziggo_caa_s_switch.Ptp.Globals.{
  n_ports, max_path_trace_n, PortState, master_port, slave_port, passive_port, disabled_port,
  BmcsInfoIs, received, mine, aged, disabled, PerPortGlobal, PerPtpInstanceGlobal,
}

-- `memcmp(a, b, sizeof(PriorityVector)) == 0`.
abbrev pub same_bytes : PriorityVector → PriorityVector → Bool
same_bytes a b = is_zero (memcmp (bytes a) (bytes b))

-- `memset(v, byte, sizeof(PriorityVector))`.
abbrev pub filled : ℕ → PriorityVector
filled byte = record {
  root_system_identity = record {
    priority1 = byte;
    clock_class = byte;
    clock_accuracy = byte;
    offset_scaled_log_variance = byte + 256 * byte;
    priority2 = byte;
    clock_identity = replicate 8 byte;
  };
  steps_removed = byte + 256 * byte;
  source_port_clock_identity = replicate 8 byte;
  source_port_number = byte + 256 * byte;
  port_number = byte + 256 * byte;
}

abbrev pub is_superior : PriorityComparison → Bool
is_superior superior_priority = true
is_superior _ = false

unfoldable pub has_port_priority : PriorityVector → Bool
has_port_priority pp =
    not (root.priority1 == 0)
    || not (root.clock_class == 0)
    || not (root.clock_accuracy == 0)
    || not (root.offset_scaled_log_variance == 0)
    || not (root.priority2 == 0)
    || not (pp.steps_removed == 0)
  where
    open pp use {root_system_identity as root}

unfoldable pub updt_state_disabled_tree : PerPtpInstanceGlobal → PerPtpInstanceGlobal
updt_state_disabled_tree g = record g {
  selected_state = get_or g.selected_state 0 disabled_port ∷ replicate n_ports disabled_port;
  last_gm_priority = filled 1;
  path_trace = set g.path_trace 0 g.this_clock;
  n_path_trace = 1;
}

-- The ladder f) of `portStateUpdate`, by the port's `infoIs`.
assign_state :
    BmcsInfoIs → PerPtpInstanceGlobal → PerPortGlobal → PriorityVector → PortState × PerPortGlobal
assign_state disabled g p path = (disabled_port, record p { updt_info = false })
assign_state aged g p path =
    if p.asymmetry_measurement_mode
    then (passive_port, record p { updt_info = false })
    else (master_port, record p { updt_info = true })
assign_state mine g p path =
    if p.asymmetry_measurement_mode then (passive_port, record p { updt_info = false }) else (
      master_port,
      record p {
        updt_info =
            (if not (same_bytes p.master_priority p.port_priority)
                || not (g.master_steps_removed == p.port_steps_removed)
              then true
              else p.updt_info);
      },
    )
assign_state received g p path =
    if p.asymmetry_measurement_mode
    then (passive_port, record p { updt_info = false })
    else (if same_bytes g.gm_priority path
        then (slave_port, record p { updt_info = false })
        else (if not (is_superior (compare_priority_vectors p.master_priority p.port_priority))
            then (passive_port, record p { updt_info = false })
            else (master_port, record p { updt_info = true })))

abbrev pub is_slave : PortState → Bool
is_slave slave_port = true
is_slave _ = false

-- A port that becomes the slave brings its path to the global path trace.
update_path_trace : PerPtpInstanceGlobal → PerPortGlobal → PerPtpInstanceGlobal
update_path_trace g p =
    let n = min p.ann_path_sequence_count max_path_trace_n in
    if leb (n + 1) max_path_trace_n
    then record g {
      path_trace = take n p.ann_path_sequence ++ g.this_clock ∷ drop (n + 1) g.path_trace;
      n_path_trace = n + 1;
    }
    else record g { n_path_trace = 0 }

-- The caller drops the integer result, which says whether the state changed.
unfoldable pub port_state_update :
    PerPtpInstanceGlobal
    → PortState
    → PerPortGlobal
    → PriorityVector
    → PerPtpInstanceGlobal × PortState × PerPortGlobal
unfolding assign_state update_path_trace
port_state_update g old p path =
    let (new, p') = assign_state p.info_is g p path in
    (if is_slave new && not (is_slave old) then update_path_trace g p' else g, new, p')

is_aged : BmcsInfoIs → Bool
is_aged aged = true
is_aged _ = false

abbrev pub is_disabled : BmcsInfoIs → Bool
is_disabled disabled = true
is_disabled _ = false

-- a) of `updtStatesTree`, for one port.
unfoldable pub gm_path_priority : PerPortGlobal → PriorityVector
unfolding has_port_priority is_aged
gm_path_priority p =
    if has_port_priority p.port_priority && not (is_aged p.info_is)
    then record pp { steps_removed = u16 (steps_removed + 1) }
    else filled 0xff
  where
    open p use {port_priority as pp}
    open pp use {steps_removed}

-- One round of the loop of c): a port that is not disabled may replace the best vector so far.
unfoldable pub consider : PerPtpInstanceGlobal → PerPortGlobal → PerPtpInstanceGlobal
consider g p =
    let path = gm_path_priority p in
    if not (is_disabled p.info_is)
      && (not (is_zero (memcmp path.source_port_clock_identity g.this_clock))
          && is_superior (compare_priority_vectors path g.gm_priority))
    then record g { gm_priority = path; time = p.ann_time }
    else g

unfoldable pub choose_gm : PerPtpInstanceGlobal → List PerPortGlobal → PerPtpInstanceGlobal
choose_gm g [] = g
choose_gm g (p ∷ ps) = choose_gm (consider g p) ps

-- d), for one port.
unfoldable pub with_master_priority : PerPtpInstanceGlobal → PerPortGlobal → PerPortGlobal
with_master_priority g p = record p {
  master_priority = record g.gm_priority {
    source_port_clock_identity = g.this_clock;
    source_port_number = p.this_port;
    port_number = p.this_port;
  };
}

-- The loop of f), over the states of the ports 1 to 4, the ports, and their path vectors, which
-- a) has computed before.
unfoldable pub update_ports :
    PerPtpInstanceGlobal
    → List PortState
    → List PerPortGlobal
    → List PriorityVector
    → PerPtpInstanceGlobal × List PortState × List PerPortGlobal
update_ports g (s ∷ ss) (p ∷ ps) (v ∷ vs) =
    let (g', s', p') = port_state_update g s p v in
    let (g'', ss', ps') = update_ports g' ss ps vs in (g'', s' ∷ ss', p' ∷ ps')
update_ports g ss ps vs = (g, ss, ps)

unfoldable pub any_slave : List PortState → Bool
any_slave [] = false
any_slave (s ∷ ss) = is_slave s || any_slave ss

-- b) and c): the old vector is kept, and the choice begins from the system's own.
unfoldable pub choose_from_system : PerPtpInstanceGlobal → List PerPortGlobal → PerPtpInstanceGlobal
choose_from_system g ports =
    choose_gm
      (record g {
        last_gm_priority = g.gm_priority;
        gm_priority = g.system_priority;
        time = g.sys_time;
      })
      ports

-- g), h) and i), from the states of the ports 1 to 4.
unfoldable pub close_tree : PerPtpInstanceGlobal → List PortState → PerPtpInstanceGlobal
close_tree g states =
    let root = g.gm_priority.root_system_identity in
    let g' = record g {
      gm_present = ltb root.priority1 255;
      selected_state = (if any_slave states then master_port else slave_port) ∷ states;
    } in
    if is_zero (memcmp g.this_clock root.clock_identity)
    then record g' { path_trace = set g'.path_trace 0 g'.this_clock; n_path_trace = 1 }
    else g'

-- The pointer result is the identity of the grandmaster if it has changed.
unfoldable pub updt_states_tree :
    PerPtpInstanceGlobal
    → List PerPortGlobal
    → PerPtpInstanceGlobal × List PerPortGlobal × Option (List ℕ)
updt_states_tree g ports =
    let g1 = choose_from_system g ports in
    let gm = g1.gm_priority in
    let (g2, states, ports') =
      update_ports (record g1 { master_steps_removed = gm.steps_removed })
        (drop 1 g1.selected_state) (map (with_master_priority g1) ports)
        (map gm_path_priority ports) in
    (
      close_tree g2 states,
      ports',
      if same_bytes g1.last_gm_priority gm
          then none
          else some gm.root_system_identity.clock_identity,
    )
