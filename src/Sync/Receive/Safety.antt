-- ===== src/Sync/Receive/Safety.antt =====
-- No order of events makes the MDSyncReceive machine follow a pointer that is not set, and its loop
-- ends (time_sync/md_sync_receive_sm.c).
use ziggo_caa_s_switch.Prelude.{
  ℕ, zero, suc, ◌<◌, ◌≡◌, refl, Bool, true, false, not, ◌&&◌, ◌||◌, List, [], ◌∷◌, ◌++◌, Option,
  none, some, ◌==◌, if◌then◌else◌, arith, Bool-cases, inl, inr,
}
use ziggo_caa_s_switch.Ptp.ScaledNs.{UScaledNs}
use ziggo_caa_s_switch.Sync.Messages.{PtpMsgSync, PtpMsgFollowUp}
use ziggo_caa_s_switch.Sync.Receive.{
  State, reaction, before_init, init, discard, waiting_for_follow_up, waiting_for_sync, ordinal,
  MdSyncReceive, MdSyncReceiveSm, Outcome, done, undefined, out_of_fuel, go, all_state_transition,
  discard_state_transition, waiting_for_follow_up_action, is_followed_up,
  waiting_for_follow_up_state_transition, waiting_for_sync_action,
  waiting_for_sync_state_transition, run_state, round, run_loop, run_fuel, md_sync_receive_sm_run,
  md_sync_receive_sm_recv_sync, md_sync_receive_sm_recv_follow_up, init_md_sync_receive_sm,
}
use ziggo_caa_s_switch.Sync.Receive.Events.{
  Event, run, recv_sync, recv_follow_up, shared, handle, and_then, handle_all,
}

abbrev is_some {ℓ} : {A : Type ℓ} → Option A → Bool
is_some none = false
is_some (some a) = true

-- The flags and pointers of `sm` fit the state `s`, entered from `l`.
pub record Fits (s l : State) (sm : MdSyncReceiveSm) : Type 0 where
  pub started : ((ordinal s == 3) || (ordinal s == 4) || (ordinal s == 5)) ≡ true
  pub pending :
      (ordinal s == 3 && not (ordinal l == 3)) ≡ false
      → sm.rcvd_sync ≡ true
      → is_some sm.rcvd_sync_ptr ≡ true
  pub follow_up_pending :
      (ordinal s == 3 && not (ordinal l == 3)) ≡ false
      → sm.rcvd_follow_up ≡ true
      → is_some sm.rcvd_follow_up_ptr ≡ true
  pub waiting : ((ordinal s == 4) || (ordinal s == 5)) ≡ true → is_some sm.rcvd_sync_ptr ≡ true
  pub followed :
      (ordinal s == 5 && not (ordinal l == 5)) ≡ true → is_some sm.rcvd_follow_up_ptr ≡ true

abbrev pub IsValid : MdSyncReceiveSm → Type 0
IsValid sm = Fits sm.state sm.last_state sm

-- The machine is valid and at rest.
abbrev pub Ends : Outcome → Type 0
Ends (done sm sent) = IsValid sm × ((ordinal sm.state == ordinal sm.last_state) ≡ true)
Ends undefined = ⊥
Ends out_of_fuel = ⊥

-- At most so many rounds are left.
abbrev rank : State → State → ℕ
rank s l = if ordinal s == ordinal l then 2 else (if ordinal s == 4 then 1 else 0)

abbrev Sound : ℕ → Outcome → Type 0
Sound n (done sm sent) =
    IsValid sm
    × ((ordinal sm.state == ordinal sm.last_state) ≡ false → rank sm.state sm.last_state < n)
Sound n undefined = ⊥
Sound n out_of_fuel = ⊥

Sound-cases :
    (n : ℕ) (o : Outcome)
    → Sound n o
    → (sm : MdSyncReceiveSm) × (sent : List MdSyncReceive) × (o ≡ done sm sent)
      × Sound n (done sm sent)
Sound-cases n (done sm sent) h = (sm, sent, refl, h)
Sound-cases n undefined h = absurd h
Sound-cases n out_of_fuel h = absurd h

rank_lt : (s l : State) → rank s l < run_fuel
rank_lt s l = ground arith

module _ (ts : UScaledNs) where
  -- From WAITING_FOR_FOLLOW_UP, with the sync message that it waits behind.
  transition-Sound :
      (n : ℕ) (sm : MdSyncReceiveSm)
      → sm.last_state ≡ waiting_for_follow_up
      → is_some sm.rcvd_sync_ptr ≡ true
      → (sm.rcvd_follow_up ≡ true → is_some sm.rcvd_follow_up_ptr ≡ true)
      → 0 < n
      → (sm.rcvd_sync ≡ true → 1 < n)
      → Sound n (waiting_for_follow_up_state_transition ts sm)
  unfolding waiting_for_follow_up_state_transition is_followed_up
  transition-Sound n sm e has follow h h' = ground arith

  follow_up_round-Sound :
      (l : State) (sm : MdSyncReceiveSm)
      → sm.state ≡ waiting_for_follow_up
      → sm.last_state ≡ l
      → Fits waiting_for_follow_up l sm
      → Sound (rank waiting_for_follow_up l) (round ts sm)
  unfolding round run_state waiting_for_follow_up_action
  follow_up_round-Sound l sm e e' v = elim (Bool-cases (4 == ordinal l)) [
    | inl stay ↦
        rw (round, run_state, e, e', stay)
          (transition-Sound 2
            (record sm { state = waiting_for_follow_up; last_state = waiting_for_follow_up }) refl
            (v.waiting refl) (v.follow_up_pending refl) (omega arith) (λ h. omega arith))
    | inr entry ↦
        rw (round, run_state, e, e', entry)
          (transition-Sound 1
            (waiting_for_follow_up_action ts
              (record sm { state = waiting_for_follow_up; last_state = waiting_for_follow_up }))
            refl (v.waiting refl) (v.follow_up_pending refl) (omega arith)
            (λ h. absurd (ground arith)))
  ]

  round-Sound :
      (s l : State) (sm : MdSyncReceiveSm)
      → sm.state ≡ s
      → sm.last_state ≡ l
      → Fits s l sm
      → Sound (rank s l) (round ts sm)
  unfolding round run_state discard_state_transition waiting_for_sync_action
      waiting_for_sync_state_transition
  round-Sound reaction l sm e e' v = absurd (ground (arith, v.started))
  round-Sound before_init l sm e e' v = absurd (ground (arith, v.started))
  round-Sound init l sm e e' v = absurd (ground (arith, v.started))
  round-Sound discard l sm e e' v = ground arith
  round-Sound waiting_for_follow_up l sm e e' v = follow_up_round-Sound l sm e e' v
  round-Sound waiting_for_sync l sm e e' v = ground arith

  run_loop-Ends :
      (fuel : ℕ) (sm : MdSyncReceiveSm) (sent : List MdSyncReceive)
      → IsValid sm
      → rank sm.state sm.last_state < fuel
      → Ends (run_loop ts fuel sm sent)
  unfolding run_loop
  run_loop-Ends zero sm sent v h = absurd (omega arith)
  run_loop-Ends (suc fuel) sm sent v h =
      let (s, more, e, (valid, less)) =
        Sound-cases _ (round ts sm) (round-Sound sm.state sm.last_state sm refl refl v) in
      let rest = run_loop-Ends fuel s (sent ++ more) valid in
      elim (Bool-cases (ordinal s.state == ordinal s.last_state)) [
        | inl stop ↦ rw (run_loop, e) (rw stop (valid, stop))
        | inr go_on ↦ let l = less go_on in rw (run_loop, e) (rw go_on (rest (omega (arith, l, h))))
      ]

  run-Ends : (sm : MdSyncReceiveSm) → IsValid sm → Ends (md_sync_receive_sm_run ts sm)
  unfolding md_sync_receive_sm_run all_state_transition
  run-Ends sm v =
      run_loop-Ends run_fuel (go (all_state_transition sm) sm) [] (ground arith)
        (rank_lt (all_state_transition sm) sm.last_state)

init-Ends : (sm : MdSyncReceiveSm) → Ends (init_md_sync_receive_sm sm)
unfolding init_md_sync_receive_sm md_sync_receive_sm_run all_state_transition run_loop round
    run_state discard_state_transition
init-Ends sm = ground arith

synced-IsValid :
    (s : PtpMsgSync) (t : UScaledNs) (sm : MdSyncReceiveSm)
    → IsValid sm
    → IsValid
        (record sm { rcvd_sync = true; rcvd_sync_ptr = some s; sync_event_ingress_timestamp = t })
synced-IsValid s t sm v = ground arith

followed-IsValid :
    (f : PtpMsgFollowUp) (sm : MdSyncReceiveSm)
    → IsValid sm
    → IsValid (record sm { rcvd_follow_up = true; rcvd_follow_up_ptr = some f })
followed-IsValid f sm v = ground arith

handle-Ends : (e : Event) (sm : MdSyncReceiveSm) → Ends (done sm []) → Ends (handle e sm)
unfolding handle md_sync_receive_sm_recv_sync md_sync_receive_sm_recv_follow_up
handle-Ends (run ts) sm (v, r) = run-Ends ts sm v
handle-Ends (recv_sync ts stamp s) sm (v, r) = run-Ends ts _ (synced-IsValid s stamp.ts sm v)
handle-Ends (recv_follow_up ts f) sm (v, r) = run-Ends ts _ (followed-IsValid f sm v)
handle-Ends (shared p g) sm (v, r) = (
  record {
    started = v.started;
    pending = v.pending;
    follow_up_pending = v.follow_up_pending;
    waiting = v.waiting;
    followed = v.followed;
  },
  r,
)

and_then-Ends :
    (f : MdSyncReceiveSm → Outcome) (o : Outcome)
    → Ends o
    → ((sm : MdSyncReceiveSm) → Ends (done sm []) → Ends (f sm))
    → Ends (and_then f o)
and_then-Ends f (done sm sent) h k = appended (f sm) (k sm h)
  where
    appended :
        (o : Outcome)
        → Ends o
        → Ends (elim o [
          | done s more ↦ done s (sent ++ more)
          | undefined ↦ undefined
          | out_of_fuel ↦ out_of_fuel
        ])
    appended (done s more) h = h
    appended undefined h = h
    appended out_of_fuel h = h
and_then-Ends f undefined h k = absurd h
and_then-Ends f out_of_fuel h k = absurd h

handled-Ends :
    (es : List Event) (sm : MdSyncReceiveSm) → Ends (done sm []) → Ends (handle_all es sm)
unfolding handle_all
handled-Ends [] sm h = h
handled-Ends (e ∷ es) sm h =
    and_then-Ends (handle_all es) (handle e sm) (handle-Ends e sm h) (handled-Ends es)

-- Whatever memory the machine starts from, and whatever messages, runs and writes to the shared state
-- follow its initialisation in whatever order, each of them ends within the fuel and follows no
-- pointer that is not set: the machine is valid and at rest again.
pub received_all-Ends :
    (memory : MdSyncReceiveSm) (es : List Event)
    → Ends (and_then (handle_all es) (init_md_sync_receive_sm memory))
received_all-Ends memory es =
    and_then-Ends (handle_all es) (init_md_sync_receive_sm memory) (init-Ends memory)
      (handled-Ends es)
