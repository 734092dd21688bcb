-- ===== src/Bmca/AnnounceInfo.antt =====
-- The PortAnnounceInformation machine of one port (time_sync/port_announce_information_sm.c). The
-- machine owns the structs that its pointers name. An action whose C code has undefined behaviour
-- at the data given (a NULL message, a shift out of range, a `memcpy` past the end of
-- `annPathSequence`, a port whose number is past the five entries of an array that it indexes) is
-- `none`. Log calls and `free` are left out.
pub mod Machine
pub mod Safety
pub mod Loops
pub mod Ending
mod Examples
use ziggo_caa_s_switch.Prelude.{
  ℕ, ◌+◌, ◌-◌, ◌*◌, ◌/◌, ◌^◌, Bool, true, false, not, ◌&&◌, ◌||◌, List, [], ◌∷◌, ◌++◌, Option, none,
  some, ltb, leb, ◌==◌, if◌then◌else◌, get_or, set, take, drop, ℤ, pos, negsuc, nonneg, u8, u64,
  test_bit,
}
use ziggo_caa_s_switch.Ptp.ScaledNs.{UScaledNs, uscaledns_add, uscaledns_compare}
use ziggo_caa_s_switch.Ptp.Priority.{
  SystemIdentity, PriorityVector, memcmp, is_zero, bytes, compare_priority_vectors,
}
use ziggo_caa_s_switch.Ptp.Globals.{
  PortState, disabled_port, BmcsInfoIs, received, mine, aged, disabled, BmcsRcvdInfo,
  repeated_master_info, superior_master_info, inferior_master_info, other_info, TimeProperties,
  PerPortGlobal, PerPtpInstanceGlobal, n_ports,
}
use ziggo_caa_s_switch.Bmca.StateSelection.{same_bytes, is_superior}

pub data State : Type 0 where
  before_init init disabled_state aged_state update current receive : State
  inferior_master_or_other_port repeated_master_port superior_master_port : State

-- The fields of `PTPMsgAnnounce` that the machine reads.
pub record PtpMsgAnnounce : Type 0 where
  pub flags1 : ℕ  -- head.flags[1]
  pub source_clock_identity : List ℕ  -- head.sourcePortIdentity
  pub source_port_number : ℕ
  pub log_message_interval : ℤ  -- int8_t
  pub current_utc_offset : ℕ
  pub grandmaster_priority1 : ℕ
  pub clock_class : ℕ  -- grandmasterClockQuality
  pub clock_accuracy : ℕ
  pub offset_scaled_log_variance : ℕ
  pub grandmaster_priority2 : ℕ
  pub grandmaster_identity : List ℕ
  pub steps_removed : ℕ
  pub time_source : ℕ
  pub length_field : ℕ  -- pathTraceTLV
  pub path_sequence : List (List ℕ)

pub record PortAnnounceInformationSm : Type 0 where
  pub announce_receipt_timeout_time : UScaledNs
  pub message_priority : PriorityVector
  pub rcvd_info : BmcsRcvdInfo
  pub rcvd_announce : Option PtpMsgAnnounce
  pub instance_global : PerPtpInstanceGlobal
  pub port : PerPortGlobal
  pub state : State
  pub last_state : State

abbrev pub is_disabled_port : PortState → Bool
is_disabled_port disabled_port = true
is_disabled_port _ = false

-- `sourcePortNumber` keeps its value: the source does not set it.
unfoldable pub announced_vector : PriorityVector → PtpMsgAnnounce → PriorityVector
announced_vector old a = record old {
  root_system_identity = record {
    priority1 = a.grandmaster_priority1;
    clock_class = a.clock_class;
    clock_accuracy = a.clock_accuracy;
    offset_scaled_log_variance = a.offset_scaled_log_variance;
    priority2 = a.grandmaster_priority2;
    clock_identity = a.grandmaster_identity;
  };
  steps_removed = a.steps_removed;
  source_port_clock_identity = a.source_clock_identity;
  port_number = a.source_port_number;
}

-- An access at the entry `i` of an array with an entry for each port and one for the instance, and what
-- it gives.
abbrev pub at_entry {ℓ} : {A : Type ℓ} → ℕ → A → Option A
at_entry i x = if ltb i (n_ports + 1) then some x else none

unfoldable pub rcv_info :
    PortAnnounceInformationSm → PtpMsgAnnounce → Option (PortAnnounceInformationSm × BmcsRcvdInfo)
unfolding announced_vector
rcv_info sm a =
    let message = announced_vector sm.message_priority a in
    at_entry sm.port.this_port (
      record sm {
        instance_global = record sm.instance_global { gm_steps_removed = a.steps_removed };
        message_priority = message;
      },
      if is_disabled_port (get_or sm.instance_global.selected_state sm.port.this_port disabled_port)
          then other_info
          else (if same_bytes sm.port.port_priority message
              then repeated_master_info
              else (if is_superior (compare_priority_vectors message sm.port.port_priority)
                  then superior_master_info
                  else inferior_master_info)),
    )

-- `memcpy` of `n` bytes between arrays of eight-byte identities.
unfoldable pub copy_path : ℕ → List (List ℕ) → List (List ℕ) → List (List ℕ)
copy_path n [] src = []
copy_path n (d ∷ dst) [] = d ∷ dst
copy_path n (d ∷ dst) (s ∷ src) = (take n s ++ drop n d) ∷ copy_path (n - 8) dst src

abbrev pub announced_time : PtpMsgAnnounce → TimeProperties
announced_time a = record {
  leap61 = test_bit a.flags1 0;
  leap59 = test_bit a.flags1 1;
  current_utc_offset_valid = test_bit a.flags1 2;
  ptp_timescale = test_bit a.flags1 3;
  time_traceable = test_bit a.flags1 4;
  frequency_traceable = test_bit a.flags1 5;
  current_utc_offset = a.current_utc_offset;
  time_source = a.time_source;
}

-- The array holds 64 bytes, and the source copies `lengthField` of them.
unfoldable pub record_other_announce_info :
    PortAnnounceInformationSm → PtpMsgAnnounce → Option PortAnnounceInformationSm
record_other_announce_info sm a =
    if ltb 64 a.length_field
    then none
    else some (record sm {
      port = record sm.port {
        ann_time = announced_time a;
        ann_path_sequence_count = u8 (a.length_field / 8);
        ann_path_sequence = copy_path a.length_field sm.port.ann_path_sequence a.path_sequence;
      };
      instance_global = record sm.instance_global { gm_identity = a.grandmaster_identity };
    })

-- `RESELECT[thisPort] = 1; SELECTED[thisPort] = 0`.
abbrev ask_reselect : PerPtpInstanceGlobal → ℕ → PerPtpInstanceGlobal
ask_reselect g i = record g { reselect = set g.reselect i true; selected = set g.selected i false }

abbrev pub is_selected : PortAnnounceInformationSm → Bool
is_selected sm = get_or sm.instance_global.selected sm.port.this_port false

abbrev pub has_info : BmcsInfoIs → BmcsInfoIs → Bool
has_info received received = true
has_info mine mine = true
has_info aged aged = true
has_info disabled disabled = true
has_info _ _ = false

unfoldable pub disabled_action :
    PortAnnounceInformationSm → UScaledNs → Option PortAnnounceInformationSm
disabled_action sm ts = at_entry sm.port.this_port (record sm {
  port = record sm.port { rcvd_msg = false; info_is = disabled };
  announce_receipt_timeout_time = ts;
  instance_global = ask_reselect sm.instance_global sm.port.this_port;
})

unfoldable pub aged_action : PortAnnounceInformationSm → Option PortAnnounceInformationSm
aged_action sm = at_entry sm.port.this_port (record sm {
  port = record sm.port { info_is = aged; ann_path_sequence_count = 0 };
  instance_global = record (ask_reselect sm.instance_global sm.port.this_port) {
    gm_identity = sm.instance_global.this_clock;
  };
})

unfoldable pub update_action : PortAnnounceInformationSm → PortAnnounceInformationSm
update_action sm = record sm {
  port = record sm.port {
    port_priority = sm.port.master_priority;
    port_steps_removed = sm.instance_global.master_steps_removed;
    updt_info = false;
    info_is = mine;
    new_info = true;
  };
}

unfoldable pub receive_action : PortAnnounceInformationSm → Option PortAnnounceInformationSm
unfolding rcv_info
receive_action sm = elim sm.rcvd_announce [
  | none ↦ none
  | some a ↦ elim (rcv_info sm a) [
    | none ↦ none
    | some (sm', info) ↦ some (record sm' { rcvd_info = info })
  ]
]

-- `rcvdMsg = 0; rcvdAnnouncePtr = NULL`.
abbrev drop_message : PortAnnounceInformationSm → PortAnnounceInformationSm
drop_message sm = record sm { port = record sm.port { rcvd_msg = false }; rcvd_announce = none }

unfoldable pub repeated_master_port_action :
    PortAnnounceInformationSm → UScaledNs → Option PortAnnounceInformationSm
unfolding record_other_announce_info
repeated_master_port_action sm ts = elim sm.rcvd_announce [
  | none ↦ none
  | some a ↦ elim (record_other_announce_info sm a) [
    | none ↦ none
    | some sm' ↦ some (
        drop_message (record sm' {
          announce_receipt_timeout_time =
              uscaledns_add ts sm.port.announce_receipt_timeout_time_interval;
        }))
  ]
]

-- `(uint64_t)announceReceiptTimeout * ONE_SEC_NS * (1 << n)`, the shift in an `int`.
abbrev pub timeout_interval : ℕ → ℤ → Option UScaledNs
timeout_interval timeout (negsuc n) = none
timeout_interval timeout (pos n) =
    if ltb n 31
    then some (record { subns = 0; nsec = u64 (timeout * 1000000000 * 2 ^ n); nsec_msb = 0 })
    else none

-- What the action does once its message, its copy and its shifts are known to be good.
unfoldable pub take_master_info :
    PortAnnounceInformationSm
    → UScaledNs
    → PtpMsgAnnounce
    → UScaledNs
    → UScaledNs
    → Option PortAnnounceInformationSm
take_master_info sm ts a announce_interval sync_interval = at_entry sm.port.this_port (
    drop_message (record sm {
      port = record sm.port {
        port_priority = sm.message_priority;
        port_steps_removed = a.steps_removed;
        announce_receipt_timeout_time_interval = announce_interval;
        sync_receipt_timeout_time_interval = sync_interval;
        info_is = received;
      };
      announce_receipt_timeout_time = uscaledns_add ts announce_interval;
      instance_global = record (ask_reselect sm.instance_global sm.port.this_port) {
        sync_receipt_timeout_time = uscaledns_add ts sync_interval;
      };
    }))

unfoldable pub superior_master_port_action :
    PortAnnounceInformationSm → UScaledNs → Option PortAnnounceInformationSm
unfolding record_other_announce_info
superior_master_port_action sm ts = elim sm.rcvd_announce [
  | none ↦ none
  | some a ↦ elim (record_other_announce_info sm a) [
    | none ↦ none
    | some sm' ↦ elim (timeout_interval sm.port.announce_receipt_timeout a.log_message_interval) [
      | none ↦ none
      | some t ↦
          elim (timeout_interval sm.port.announce_receipt_timeout
            (pos sm.port.initial_log_announce_interval)) [
              | none ↦ none
              | some t' ↦ take_master_info sm' ts a t t'
            ]
    ]
  ]
]
