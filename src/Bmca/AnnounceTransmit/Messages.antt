-- ===== src/Bmca/AnnounceTransmit/Messages.antt =====
-- What an announcement carries from the sending port to a receiving one
-- (time_sync/port_announce_transmit_sm.c, port_announce_information_sm.c).
use ziggo_caa_s_switch.Prelude.{
  ℕ, zero, suc, ◌/◌, ◌≤◌, ◌<◌, ◌≡◌, refl, arith, some, List, [], ◌∷◌, get_or, take,
}
use ziggo_caa_s_switch.Ptp.Priority.{PriorityVector}
use ziggo_caa_s_switch.Ptp.Globals.{TimeProperties, PerPortGlobal, PerPtpInstanceGlobal}
use ziggo_caa_s_switch.Bmca.AnnounceInfo.{PtpMsgAnnounce, announced_vector, announced_time}
use ziggo_caa_s_switch.Bmca.AnnounceTransmit.{announce_flags, set_announce}

-- The flags are read as they were written.
announced_time-flags :
    (a : PtpMsgAnnounce) (t : TimeProperties)
    → a.flags1 ≡ announce_flags t
    → a.current_utc_offset ≡ t.current_utc_offset
    → a.time_source ≡ t.time_source
    → announced_time a ≡ t
unfolding announce_flags
announced_time-flags a t e u s = ground arith

-- Below its count, `take` keeps the entries.
get_or-take :
    (n : ℕ) (xs : List (List ℕ)) (i : ℕ) → i < n → get_or (take n xs) i [] ≡ get_or xs i []
get_or-take zero xs i h = absurd (omega arith)
get_or-take (suc n) [] i h = refl
get_or-take (suc n) (x ∷ xs) zero h = refl
get_or-take (suc n) (x ∷ xs) (suc i) h = get_or-take n xs i (omega arith)

-- A receiving port reads from the message the time properties and the steps of the sending
-- instance, the identity of the grandmaster that the sender's master priority names, and the sender's
-- identity and port. The path takes at most 64 bytes: its length is that of the sender's path trace, and
-- each of its entries is the entry of the sender's path trace at the same place.
pub set_announce-announced :
    (g : PerPtpInstanceGlobal) (p : PerPortGlobal) (a : PtpMsgAnnounce) (old : PriorityVector)
    → set_announce g p ≡ some a
    → (announced_time a ≡ g.time)
      × ((announced_vector old a).root_system_identity ≡ p.master_priority.root_system_identity)
      × ((announced_vector old a).steps_removed ≡ g.master_steps_removed)
      × ((announced_vector old a).source_port_clock_identity ≡ g.this_clock)
      × ((announced_vector old a).port_number ≡ p.this_port)
      × (a.length_field ≤ 64)
      × (a.length_field / 8 ≡ g.n_path_trace)
      × ((i : ℕ) → i < g.n_path_trace → get_or a.path_sequence i [] ≡ get_or g.path_trace i [])
unfolding set_announce announced_vector
set_announce-announced g p a old e =
    ground (arith, announced_time-flags a g.time, get_or-take g.n_path_trace g.path_trace)
