-- ===== src/GateControl/Points.antt =====
-- The windows of a schedule, and the time points that `apply_gcl` collects from it (topo.cpp).
use ziggo_caa_s_switch.Prelude.{
  ℕ, zero, suc, ◌+◌, ◌-◌, ◌≤◌, ◌<◌, ◌≡◌, inl, inr, refl, sym, ap, ◌∙◌, false, List, [], ◌∷◌, ◌++◌,
  some, ltb, ◌==◌, if◌then◌else◌, All, arith, Bool-cases, append_assoc, append-nil,
}
use ziggo_caa_s_switch.GateControl.{
  max_period, ScheduleItem, TimePoints, push_window, push_frame, push_periods, period_fuel,
  push_item, push_items,
}

-- The windows of the frame that begins its period at `x`, within the cycle.
abbrev pub frame_windows : ℕ → ScheduleItem → List (ℕ × ℕ)
frame_windows x item =
    if ltb max_period (x + item.end_time)
    then (0, x + item.end_time - max_period) ∷ (x + item.start, max_period) ∷ []
    else (x + item.start, x + item.end_time) ∷ []

-- Those of the periods that begin in the cycle from `x` on.
unfoldable pub period_windows : ℕ → ℕ → ScheduleItem → List (ℕ × ℕ)
period_windows zero x item = []
period_windows (suc fuel) x item =
    let rest = period_windows fuel (x + item.period) item in
    if ltb x max_period then frame_windows x item ++ rest else []

-- Every window of a schedule. A cycle has at most 2048 periods.
unfoldable pub windows : List ScheduleItem → List (ℕ × ℕ)
windows [] = []
windows (item ∷ items) = period_windows period_fuel 0 item ++ windows items

unfoldable pub edges : List (ℕ × ℕ) → List ℕ
edges [] = []
edges ((s, e) ∷ ws) = s ∷ e ∷ edges ws

unfoldable pub firsts : List (ℕ × ℕ) → List ℕ
firsts [] = []
firsts ((s, e) ∷ ws) = s ∷ firsts ws

-- The time points of some windows.
abbrev pub collected : List (ℕ × ℕ) → TimePoints
collected ws = record { time_points = 0 ∷ max_period ∷ edges ws; tt_frames_start_times = firsts ws }

edges-append : (ws vs : List (ℕ × ℕ)) → edges (ws ++ vs) ≡ edges ws ++ edges vs
unfolding edges
edges-append [] vs = refl
edges-append ((s, e) ∷ ws) vs = ap (λ xs. s ∷ e ∷ xs) (edges-append ws vs)

firsts-append : (ws vs : List (ℕ × ℕ)) → firsts (ws ++ vs) ≡ firsts ws ++ firsts vs
unfolding firsts
firsts-append [] vs = refl
firsts-append ((s, e) ∷ ws) vs = ap (◌∷◌ s) (firsts-append ws vs)

push_window-collected :
    (ws : List (ℕ × ℕ)) (s e : ℕ) → push_window (collected ws) s e ≡ collected (ws ++ (s, e) ∷ [])
unfolding edges firsts
push_window-collected ws s e = rw (edges-append ws ((s, e) ∷ []), firsts-append ws ((s, e) ∷ []))

push_frame-collected :
    (ws : List (ℕ × ℕ)) (x : ℕ) (item : ScheduleItem)
    → push_frame x item (collected ws) ≡ collected (ws ++ frame_windows x item)
unfolding push_frame
push_frame-collected ws x item = elim (Bool-cases (ltb max_period (x + item.end_time))) [
  | inl long ↦
      let k = x + item.end_time - max_period in
      rw (long) (
        ap (λ ps. push_window ps (x + item.start) max_period) (push_window-collected ws 0 k)
        ∙ push_window-collected (ws ++ (0, k) ∷ []) (x + item.start) max_period
        ∙ ap collected (append_assoc ws ((0, k) ∷ []) ((x + item.start, max_period) ∷ [])))
  | inr short ↦ rw (short) (push_window-collected ws (x + item.start) (x + item.end_time))
]

push_periods-collected :
    (fuel x : ℕ) (item : ScheduleItem) (ws : List (ℕ × ℕ))
    → 0 < item.period
    → max_period ≤ x + fuel
    → push_periods (suc fuel) x item (collected ws)
      ≡ some (collected (ws ++ period_windows (suc fuel) x item))
unfolding push_periods period_windows
push_periods-collected zero x item ws h k =
    let done : ltb x max_period ≡ false = ground arith in rw (done, append-nil ws)
push_periods-collected (suc fuel) x item ws h k = elim (Bool-cases (ltb x max_period)) [
  | inl more ↦
      rw (more, push_frame-collected ws x item)
        (push_periods-collected fuel (x + item.period) item (ws ++ frame_windows x item) h
            (omega arith)
          ∙ ap (λ vs. some (collected vs))
              (append_assoc ws (frame_windows x item)
                (period_windows (suc fuel) (x + item.period) item)))
  | inr done ↦ rw (done, append-nil ws)
]

-- A period of the whole cycle, which the source treats apart, has one frame.
period_windows-whole :
    (item : ScheduleItem)
    → item.period ≡ max_period
    → period_windows period_fuel 0 item ≡ frame_windows 0 item
unfolding period_windows
period_windows-whole item e = rw e (append-nil (frame_windows 0 item))

push_item-collected :
    (item : ScheduleItem) (ws : List (ℕ × ℕ))
    → 0 < item.period
    → push_item item (collected ws) ≡ some (collected (ws ++ period_windows period_fuel 0 item))
unfolding push_item
push_item-collected item ws h = elim (Bool-cases (item.period == max_period)) [
  | inl whole ↦
      rw (whole, push_frame-collected ws 0 item)
        (ap (λ vs. some (collected (ws ++ vs))) (sym (period_windows-whole item (ground arith))))
  | inr other ↦ rw other (push_periods-collected 2048 0 item ws h (omega arith))
]

-- Schedules whose periods are not 0 are collected whole.
pub push_items-collected :
    (items : List ScheduleItem) (ws : List (ℕ × ℕ))
    → All (λ item. 0 < item.period) items
    → push_items items (collected ws) ≡ some (collected (ws ++ windows items))
unfolding push_items windows
push_items-collected [] ws h = rw (append-nil ws)
push_items-collected (item ∷ items) ws h =
    rw (push_items, push_item-collected item ws h.0)
      (push_items-collected items (ws ++ period_windows period_fuel 0 item) h.1
        ∙ ap (λ vs. some (collected vs))
            (append_assoc ws (period_windows period_fuel 0 item) (windows items)))
