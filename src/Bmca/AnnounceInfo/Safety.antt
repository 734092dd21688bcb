-- ===== src/Bmca/AnnounceInfo/Safety.antt =====
-- One round of the PortAnnounceInformation machine, from a machine whose message, if it is about to
-- be read, is well formed: no undefined behaviour, and where each state leads.
use ziggo_caa_s_switch.Prelude.{
  ℕ, zero, suc, ◌≤◌, ◌<◌, ◌≡◌, ◌⊎◌, inl, inr, refl, ◌∙◌, ◌*◌, ◌^◌, u64, lt→ltb, Option-cases, Bool,
  true, false, arith, Option, none, some, ◌==◌, set, get_or, List, [], ◌∷◌, ℤ, pos, negsuc,
}
use ziggo_caa_s_switch.Ptp.ScaledNs.{UScaledNs}
use ziggo_caa_s_switch.Bmca.AnnounceInfo.{
  before_init, init, disabled_state, aged_state, update, current, receive,
  inferior_master_or_other_port, repeated_master_port, superior_master_port, PtpMsgAnnounce,
  PortAnnounceInformationSm, receive_action, repeated_master_port_action,
  superior_master_port_action, record_other_announce_info, take_master_info, timeout_interval,
}
use ziggo_caa_s_switch.Bmca.AnnounceInfo.Machine.{ordinal, round}

abbrev pub InRange : ℤ → Type 0
InRange (pos n) = n < 31
InRange (negsuc n) = ⊥

-- The shift by the message's interval is defined, and its path trace fits the port's array.
abbrev pub IsWellFormed : PtpMsgAnnounce → Type 0
IsWellFormed a = (a.length_field ≤ 64) × InRange a.log_message_interval

abbrev pub HoldsMessage : Option PtpMsgAnnounce → Type 0
HoldsMessage none = ⊥
HoldsMessage (some a) = IsWellFormed a

-- A machine that is about to read its message holds a well-formed one, and its port has an entry in
-- the arrays.
pub record IsReady (sm : PortAnnounceInformationSm) : Type 0 where
  pub pending : sm.port.rcvd_msg ≡ true → HoldsMessage sm.rcvd_announce
  pub receiving : sm.state ≡ receive → HoldsMessage sm.rcvd_announce
  pub interval_lt : sm.port.initial_log_announce_interval < 31
  pub port_lt : sm.port.this_port < 5

abbrev pub Goes : (PortAnnounceInformationSm → Type 0) → Option PortAnnounceInformationSm → Type 0
Goes P none = ⊥
Goes P (some sm) = P sm

get_or-set-false : (xs : List Bool) (i : ℕ) → get_or (set xs i false) i false ≡ false
get_or-set-false [] i = refl
get_or-set-false (x ∷ xs) zero = refl
get_or-set-false (x ∷ xs) (suc i) = get_or-set-false xs i

-- What answering a message leaves for the loop.
abbrev Answered : PortAnnounceInformationSm → PortAnnounceInformationSm → Type 0
Answered sm s =
    (s.port.rcvd_msg ≡ false)
    × (s.state ≡ sm.state)
    × (s.last_state ≡ sm.last_state)
    × (s.port.initial_log_announce_interval ≡ sm.port.initial_log_announce_interval)
    × (s.port.this_port ≡ sm.port.this_port)

take_master_info-Answered :
    (sm : PortAnnounceInformationSm) (ts : UScaledNs) (a : PtpMsgAnnounce) (t t' : UScaledNs)
    → sm.port.this_port < 5
    → Goes (Answered sm) (take_master_info sm ts a t t')
unfolding take_master_info
take_master_info-Answered sm ts a t t' h = ground arith

InRange-timeout :
    (timeout : ℕ) (z : ℤ) → InRange z → (t : UScaledNs) × (timeout_interval timeout z ≡ some t)
InRange-timeout timeout (pos n) h = (
  record { subns = 0; nsec = u64 (timeout * 1000000000 * 2 ^ n); nsec_msb = 0 },
  rw (lt→ltb n 31 h),
)
InRange-timeout timeout (negsuc n) h = absurd h

record_other_announce_info-some :
    (sm : PortAnnounceInformationSm) (a : PtpMsgAnnounce)
    → a.length_field ≤ 64
    → Goes
        (λ s.
          (s.state ≡ sm.state)
          × (s.last_state ≡ sm.last_state)
          × (s.port.initial_log_announce_interval ≡ sm.port.initial_log_announce_interval)
          × (s.port.this_port ≡ sm.port.this_port))
        (record_other_announce_info sm a)
unfolding record_other_announce_info
record_other_announce_info-some sm a h = ground arith

Goes-Answered :
    (s sm : PortAnnounceInformationSm) (o : Option PortAnnounceInformationSm)
    → (s.state ≡ sm.state)
      × (s.last_state ≡ sm.last_state)
      × (s.port.initial_log_announce_interval ≡ sm.port.initial_log_announce_interval)
      × (s.port.this_port ≡ sm.port.this_port)
    → Goes (Answered s) o
    → Goes (Answered sm) o
Goes-Answered s sm none k h = absurd h
Goes-Answered s sm (some u) k h = (h.0, h.1 ∙ k.0, h.2 ∙ k.1, h.3 ∙ k.2, h.4 ∙ k.3)

superior_action_lem :
    (o : Option PtpMsgAnnounce) (sm : PortAnnounceInformationSm) (ts : UScaledNs)
    → sm.rcvd_announce ≡ o
    → HoldsMessage o
    → sm.port.initial_log_announce_interval < 31
    → sm.port.this_port < 5
    → Goes (Answered sm) (superior_master_port_action sm ts)
unfolding superior_master_port_action
superior_action_lem none sm ts e h k p = absurd h
superior_action_lem (some a) sm ts e h k p =
    let (t, et) = InRange-timeout sm.port.announce_receipt_timeout a.log_message_interval h.1 in
    let (t', et') =
      InRange-timeout sm.port.announce_receipt_timeout (pos sm.port.initial_log_announce_interval)
        k in
    elim (Option-cases (record_other_announce_info sm a)) [
      | inl bad ↦ absurd (rw bad at (record_other_announce_info-some sm a h.0))
      | inr (s, good) ↦
          let kept = rw good at (record_other_announce_info-some sm a h.0) in
          let last = take_master_info-Answered s ts a t t' (rw kept.3 p) in
          rw (e, superior_master_port_action) (rw (good, et, et') (Goes-Answered s sm _ kept last))
    ]

repeated_action_lem :
    (o : Option PtpMsgAnnounce) (sm : PortAnnounceInformationSm) (ts : UScaledNs)
    → sm.rcvd_announce ≡ o
    → HoldsMessage o
    → Goes (Answered sm) (repeated_master_port_action sm ts)
unfolding repeated_master_port_action
repeated_action_lem none sm ts e h = absurd h
repeated_action_lem (some a) sm ts e h = elim (Option-cases (record_other_announce_info sm a)) [
  | inl bad ↦ absurd (rw bad at (record_other_announce_info-some sm a h.0))
  | inr (s, good) ↦
      let kept = rw good at (record_other_announce_info-some sm a h.0) in
      rw (e, repeated_master_port_action) (rw good (refl, kept.0, kept.1, kept.2, kept.3))
]

module _ (ts : UScaledNs) (sm : PortAnnounceInformationSm) (ready : IsReady sm) where
  pub round_aged_enter :
      sm.state ≡ aged_state
      → (ordinal sm.last_state == 3) ≡ false
      → Goes (λ s. (s.state ≡ aged_state) × (s.last_state ≡ aged_state) × IsReady s) (round ts sm)
  unfolding round
  round_aged_enter e h =
      ground (arith, get_or-set-false sm.instance_global.selected sm.port.this_port)

  pub round_current :
      sm.state ≡ current
      → Goes
          (λ s.
            (s.last_state ≡ current)
            × IsReady s
            × (s.port ≡ sm.port)
            × ((s.state ≡ current)
                ⊎ (s.state ≡ aged_state)
                ⊎ ((s.state ≡ update) × (sm.port.updt_info ≡ true))
                ⊎ ((s.state ≡ receive) × (sm.port.rcvd_msg ≡ true))))
          (round ts sm)
  unfolding round
  round_current e = ground arith

  pub round_update :
      sm.state ≡ update
      → Goes
          (λ s.
            (s.last_state ≡ update)
            × IsReady s
            × (s.state ≡ current)
            × (s.port.rcvd_msg ≡ sm.port.rcvd_msg)
            × ((ordinal sm.last_state == 4) ≡ false → s.port.updt_info ≡ false))
          (round ts sm)
  unfolding round
  round_update e = ground arith

  pub round_inferior :
      sm.state ≡ inferior_master_or_other_port
      → Goes
          (λ s.
            (ordinal s.last_state == 7 ≡ true)
            × IsReady s
            × (s.state ≡ current)
            × ((ordinal sm.last_state == 7) ≡ false → s.port.rcvd_msg ≡ false))
          (round ts sm)
  unfolding round
  round_inferior e = ground arith

  pub round_repeated :
      sm.state ≡ repeated_master_port
      → ((ordinal sm.last_state == 8) ≡ false → HoldsMessage sm.rcvd_announce)
      → Goes
          (λ s.
            (ordinal s.last_state == 8 ≡ true)
            × IsReady s
            × (s.state ≡ current)
            × ((ordinal sm.last_state == 8) ≡ false → s.port.rcvd_msg ≡ false))
          (round ts sm)
  unfolding round
  round_repeated e h =
      ground
        (arith, repeated_action_lem sm.rcvd_announce (record sm { last_state = sm.state }) ts refl)

  pub round_superior :
      sm.state ≡ superior_master_port
      → ((ordinal sm.last_state == 9) ≡ false → HoldsMessage sm.rcvd_announce)
      → Goes
          (λ s.
            (ordinal s.last_state == 9 ≡ true)
            × IsReady s
            × (s.state ≡ current)
            × ((ordinal sm.last_state == 9) ≡ false → s.port.rcvd_msg ≡ false))
          (round ts sm)
  unfolding round
  round_superior e h = ground (
    arith,
    superior_action_lem sm.rcvd_announce (record sm { last_state = sm.state }) ts refl,
    ready.interval_lt,
    ready.port_lt,
  )

  pub round_receive :
      sm.state ≡ receive
      → Goes
          (λ s.
            (s.last_state ≡ receive)
            × IsReady s
            × HoldsMessage s.rcvd_announce
            × ((s.state ≡ receive)
                ⊎ (s.state ≡ inferior_master_or_other_port)
                ⊎ (s.state ≡ repeated_master_port)
                ⊎ (s.state ≡ superior_master_port)))
          (round ts sm)
  unfolding round receive_action
  round_receive e = ground arith

  pub round_aged :
      sm.state ≡ aged_state
      → Goes
          (λ s.
            (s.last_state ≡ aged_state) × IsReady s × ((s.state ≡ aged_state) ⊎ (s.state ≡ update)))
          (round ts sm)
  unfolding round
  round_aged e = ground arith

  pub round_disabled :
      sm.state ≡ disabled_state
      → Goes
          (λ s.
            (s.last_state ≡ disabled_state)
            × IsReady s
            × ((s.state ≡ disabled_state) ⊎ (s.state ≡ aged_state)))
          (round ts sm)
  unfolding round
  round_disabled e = ground arith

  pub round_init :
      sm.state ≡ init
      → Goes (λ s. (s.last_state ≡ init) × IsReady s × (s.state ≡ disabled_state)) (round ts sm)
  unfolding round
  round_init e = ground arith

  pub round_before_init :
      sm.state ≡ before_init
      → Goes (λ s. (s.last_state ≡ before_init) × IsReady s × (s.state ≡ before_init)) (round ts sm)
  unfolding round
  round_before_init e = ground arith
