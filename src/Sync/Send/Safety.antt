-- ===== src/Sync/Send/Safety.antt =====
-- No order of events makes the MDSyncSend machine follow a pointer that is not set, and its loop ends
-- (time_sync/md_sync_send_sm.c).
use ziggo_caa_s_switch.Prelude.{
  ℕ, zero, suc, ◌+◌, ◌<◌, ◌≡◌, refl, Bool, true, false, not, ◌&&◌, ◌||◌, List, [], ◌∷◌, ◌++◌, none,
  some, ◌==◌, if◌then◌else◌, arith, Bool-cases, inl, inr, Option,
}
use ziggo_caa_s_switch.Pdelay.Messages.{TsuTimestamp}
use ziggo_caa_s_switch.Sync.Send.{
  State, reaction, before_init, init, initializing, send_sync, send_follow_up, ordinal, MdSyncSend,
  MdSyncSendSm, Sent, Outcome, done, undefined, out_of_fuel, go, all_state_transition,
  initializing_action, initializing_state_transition, send_sync_action, send_sync_state_transition,
  send_follow_up_action, send_follow_up_state_transition, run_state, round, run_loop, run_fuel,
  md_sync_send_sm_run, md_sync_send_sm_recv_md_sync, md_sync_send_sm_txts, init_md_sync_send_sm,
}
use ziggo_caa_s_switch.Sync.Send.Events.{
  Event, run, recv_md_sync, txts, shared, handle, and_then, handle_all,
}

abbrev is_some {ℓ} : {A : Type ℓ} → Option A → Bool
is_some none = false
is_some (some a) = true

-- The flags and pointers of `sm` fit the state `s`, entered from `l`.
pub record Fits (s l : State) (sm : MdSyncSendSm) : Type 0 where
  pub started : ((ordinal s == 3) || (ordinal s == 4) || (ordinal s == 5)) ≡ true
  pub pending :
      (ordinal s == 3 && not (ordinal l == 3)) ≡ false
      → sm.rcvd_md_sync_mdss ≡ true
      → is_some sm.rcvd_md_sync_ptr ≡ true
  pub sending : ((ordinal s == 4) || (ordinal s == 5)) ≡ true → is_some sm.rcvd_md_sync_ptr ≡ true
  pub sent :
      ((ordinal s == 5) || ((ordinal s == 4) && (ordinal l == 4))) ≡ true
      → is_some sm.tx_sync_ptr ≡ true

abbrev pub IsValid : MdSyncSendSm → Type 0
IsValid sm = Fits sm.state sm.last_state sm

-- The machine is valid and at rest.
abbrev pub Ends : Outcome → Type 0
Ends (done sm sent) = IsValid sm × ((ordinal sm.state == ordinal sm.last_state) ≡ true)
Ends undefined = ⊥
Ends out_of_fuel = ⊥

abbrev bit : Bool → ℕ
bit true = 1
bit false = 0

-- At most so many rounds are left: entering a state takes its flag.
abbrev rank : State → State → Bool → Bool → ℕ
rank s l md ts =
    if ordinal s == ordinal l
    then bit md + bit ts
    else (if ordinal s == 3 then 0 else (if ordinal s == 4 then bit ts else bit md))

abbrev Sound : ℕ → Outcome → Type 0
Sound n (done sm sent) =
    IsValid sm
    × ((ordinal sm.state == ordinal sm.last_state) ≡ false
        → rank sm.state sm.last_state sm.rcvd_md_sync_mdss sm.rcvd_md_timestamp_receive_mdss < n)
Sound n undefined = ⊥
Sound n out_of_fuel = ⊥

Sound-cases :
    (n : ℕ) (o : Outcome)
    → Sound n o
    → (sm : MdSyncSendSm) × (sent : List Sent) × (o ≡ done sm sent) × Sound n (done sm sent)
Sound-cases n (done sm sent) h = (sm, sent, refl, h)
Sound-cases n undefined h = absurd h
Sound-cases n out_of_fuel h = absurd h

rank_lt : (s l : State) (md ts : Bool) → rank s l md ts < run_fuel
rank_lt s l md ts = ground arith

module _ (random : ℕ) where
  round-Sound :
      (s l : State) (sm : MdSyncSendSm)
      → sm.state ≡ s
      → sm.last_state ≡ l
      → Fits s l sm
      → Sound (rank s l sm.rcvd_md_sync_mdss sm.rcvd_md_timestamp_receive_mdss) (round random sm)
  unfolding round run_state initializing_action initializing_state_transition send_sync_action
      send_sync_state_transition send_follow_up_action send_follow_up_state_transition
  round-Sound reaction l sm e e' v = absurd (ground (arith, v.started))
  round-Sound before_init l sm e e' v = absurd (ground (arith, v.started))
  round-Sound init l sm e e' v = absurd (ground (arith, v.started))
  round-Sound initializing l sm e e' v = ground arith
  round-Sound send_sync l sm e e' v = ground arith
  round-Sound send_follow_up l sm e e' v = ground arith

  run_loop-Ends :
      (fuel : ℕ) (sm : MdSyncSendSm) (sent : List Sent)
      → IsValid sm
      → rank sm.state sm.last_state sm.rcvd_md_sync_mdss sm.rcvd_md_timestamp_receive_mdss < fuel
      → Ends (run_loop random fuel sm sent)
  unfolding run_loop
  run_loop-Ends zero sm sent v h = absurd (omega arith)
  run_loop-Ends (suc fuel) sm sent v h =
      let (s, frames, e, (valid, less)) =
        Sound-cases _ (round random sm) (round-Sound sm.state sm.last_state sm refl refl v) in
      let rest = run_loop-Ends fuel s (sent ++ frames) valid in
      elim (Bool-cases (ordinal s.state == ordinal s.last_state)) [
        | inl stop ↦ rw (run_loop, e) (rw stop (valid, stop))
        | inr more ↦ let l = less more in rw (run_loop, e) (rw more (rest (omega (arith, l, h))))
      ]

  run-Ends : (sm : MdSyncSendSm) → IsValid sm → Ends (md_sync_send_sm_run random sm)
  unfolding md_sync_send_sm_run all_state_transition
  run-Ends sm v = run_loop-Ends run_fuel (go (all_state_transition sm) sm) [] (ground arith) (
      rank_lt (all_state_transition sm) sm.last_state sm.rcvd_md_sync_mdss
        sm.rcvd_md_timestamp_receive_mdss)

  init_md_sync_send_sm-Ends : (sm : MdSyncSendSm) → Ends (init_md_sync_send_sm random sm)
  unfolding init_md_sync_send_sm md_sync_send_sm_run all_state_transition run_loop round run_state
      initializing_action initializing_state_transition
  init_md_sync_send_sm-Ends sm = ground arith

  txts-Ends :
      (stamp : TsuTimestamp) (sm : MdSyncSendSm)
      → Ends (done sm [])
      → Ends (md_sync_send_sm_txts random stamp sm)
  unfolding md_sync_send_sm_txts
  txts-Ends stamp sm (v, r) = elim (Bool-cases (ordinal sm.state == 4)) [
    | inr n ↦ rw (md_sync_send_sm_txts, n) (v, r)
    | inl y ↦ elim (Bool-cases (stamp.sequence_id + 1 == sm.md_entity.sync_sequence_id)) [
      | inr n ↦ rw (md_sync_send_sm_txts, y) (rw n (v, r))
      | inl e ↦
          rw (md_sync_send_sm_txts, y)
            (rw e (
              run-Ends _ (record {
                started = v.started;
                pending = v.pending;
                sending = v.sending;
                sent = v.sent;
              })))
    ]
  ]

received-IsValid :
    (md : MdSyncSend) (sm : MdSyncSendSm)
    → IsValid sm
    → IsValid (record sm { rcvd_md_sync_mdss = true; rcvd_md_sync_ptr = some md })
received-IsValid md sm v = record {
  started = v.started;
  pending = λ e h. refl;
  sending = λ e. refl;
  sent = v.sent;
}

handle-Ends : (e : Event) (sm : MdSyncSendSm) → Ends (done sm []) → Ends (handle e sm)
unfolding handle md_sync_send_sm_recv_md_sync
handle-Ends (run random) sm (v, r) = run-Ends random sm v
handle-Ends (recv_md_sync random md) sm (v, r) = run-Ends random _ (received-IsValid md sm v)
handle-Ends (txts random stamp) sm h = txts-Ends random stamp sm h
handle-Ends (shared p g m) sm (v, r) =
    (record { started = v.started; pending = v.pending; sending = v.sending; sent = v.sent }, r)

and_then-Ends :
    (f : MdSyncSendSm → Outcome) (o : Outcome)
    → Ends o
    → ((sm : MdSyncSendSm) → Ends (done sm []) → Ends (f sm))
    → Ends (and_then f o)
and_then-Ends f (done sm sent) h k = appended (f sm) (k sm h)
  where
    appended :
        (o : Outcome)
        → Ends o
        → Ends (elim o [
          | done s more ↦ done s (sent ++ more)
          | undefined ↦ undefined
          | out_of_fuel ↦ out_of_fuel
        ])
    appended (done s more) h = h
    appended undefined h = h
    appended out_of_fuel h = h
and_then-Ends f undefined h k = absurd h
and_then-Ends f out_of_fuel h k = absurd h

handled-Ends : (es : List Event) (sm : MdSyncSendSm) → Ends (done sm []) → Ends (handle_all es sm)
unfolding handle_all
handled-Ends [] sm h = h
handled-Ends (e ∷ es) sm h =
    and_then-Ends (handle_all es) (handle e sm) (handle-Ends e sm h) (handled-Ends es)

-- Whatever memory the machine starts from, and whatever calls, time stamps and writes to the shared state
-- follow its initialisation in whatever order, each of them ends within the fuel and follows no
-- pointer that is not set: the machine is valid and at rest again.
pub handle_all-Ends :
    (random : ℕ) (memory : MdSyncSendSm) (es : List Event)
    → Ends (and_then (handle_all es) (init_md_sync_send_sm random memory))
handle_all-Ends random memory es =
    and_then-Ends (handle_all es) (init_md_sync_send_sm random memory)
      (init_md_sync_send_sm-Ends random memory) (handled-Ends es)
