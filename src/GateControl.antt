-- ===== src/GateControl.antt =====
-- The gate control list of a link (topo.cpp, `apply_gcl`). A number of the schedule is not negative.
-- `none` is a loop that does not end (a period of 0), or a store past the end of the table.
pub mod Points
pub mod Sorted
pub mod Table
pub mod Gates
pub mod Schedule
mod Examples
use ziggo_caa_s_switch.Prelude.{
  ℕ, zero, suc, ◌+◌, ◌-◌, ◌*◌, Bool, true, false, ◌||◌, List, [], ◌∷◌, ◌++◌, Option, none, some,
  ltb, leb, ◌==◌, if◌then◌else◌, set, replicate, map, u16,
}

abbrev pub max_period : ℕ
max_period = 2048

abbrev pub gcl_size : ℕ
gcl_size = 16

-- One item of `data["schedule"]`.
pub record ScheduleItem : Type 0 where
  pub period : ℕ
  pub start : ℕ
  pub end_time : ℕ

pub record TimePoints : Type 0 where
  pub time_points : List ℕ
  pub tt_frames_start_times : List ℕ

-- The three `push_back`s for a window of time-triggered frames.
abbrev pub push_window : TimePoints → ℕ → ℕ → TimePoints
push_window ps s e = record {
  time_points = ps.time_points ++ s ∷ e ∷ [];
  tt_frames_start_times = ps.tt_frames_start_times ++ s ∷ [];
}

-- The frame that begins its period at `x`; one that passes the end of the cycle is cut in two.
unfoldable pub push_frame : ℕ → ScheduleItem → TimePoints → TimePoints
push_frame x item ps =
    if ltb max_period (x + item.end_time)
    then push_window (push_window ps 0 (x + item.end_time - max_period)) (x + item.start) max_period
    else push_window ps (x + item.start) (x + item.end_time)

-- `while (x < MAX_PERIOD)`.
unfoldable pub push_periods : ℕ → ℕ → ScheduleItem → TimePoints → Option TimePoints
push_periods zero x item ps = none
push_periods (suc fuel) x item ps =
    let rest = push_periods fuel (x + item.period) item (push_frame x item ps) in
    if ltb x max_period then rest else some ps

abbrev pub period_fuel : ℕ
period_fuel = 2049

unfoldable pub push_item : ScheduleItem → TimePoints → Option TimePoints
push_item item ps =
    if item.period == max_period
    then some (push_frame 0 item ps)
    else push_periods period_fuel 0 item ps

unfoldable pub push_items : List ScheduleItem → TimePoints → Option TimePoints
push_items [] ps = some ps
push_items (item ∷ items) ps = elim (push_item item ps) [
  | none ↦ none
  | some ps' ↦ push_items items ps'
]

-- `std::find(...) != end()`.
unfoldable pub elem : ℕ → List ℕ → Bool
elem q [] = false
elem q (x ∷ xs) = q == x || elem q xs

unfoldable pub insert : ℕ → List ℕ → List ℕ
insert x [] = x ∷ []
insert x (y ∷ ys) = let rest = insert x ys in if leb x y then x ∷ y ∷ ys else y ∷ rest

-- `std::sort`.
unfoldable pub sort : List ℕ → List ℕ
sort [] = []
sort (x ∷ xs) = insert x (sort xs)

-- `std::unique` with `erase`.
unfoldable pub unique : List ℕ → List ℕ
unique [] = []
unique (x ∷ []) = x ∷ []
unique (x ∷ y ∷ ys) = let rest = unique (y ∷ ys) in if x == y then rest else x ∷ rest

-- The low eight bits are the gates; the bit above them enables the Guardband. Gate 0 alone is open for
-- time-triggered frames, with no Guardband; otherwise gate 1 alone is open, with the Guardband.
abbrev pub gate_value : List ℕ → ℕ → ℕ
gate_value starts p = if elem p starts then 1 else 0x102

-- The loop over the time points, from entry `gcl_index` on.
unfoldable pub fill : List ℕ → List ℕ → ℕ → List ℕ → List ℕ → Option (List ℕ × List ℕ)
fill starts [] gcl_index values intervals = some (values, intervals)
fill starts (p ∷ []) gcl_index values intervals = some (values, intervals)
fill starts (p ∷ q ∷ ps) gcl_index values intervals =
    let rest =
      fill starts (q ∷ ps) (gcl_index + 1) (set values gcl_index (gate_value starts p))
        (set intervals gcl_index ((q - p) * 8)) in
    if ltb gcl_index gcl_size then rest else none

-- The values and the intervals that `set_gcl` and `set_gcl_time_interval` are given, in the order of
-- the entries.
unfoldable pub apply_gcl : List ScheduleItem → Option (List ℕ × List ℕ)
apply_gcl schedule =
    elim (push_items schedule
      (record { time_points = 0 ∷ max_period ∷ []; tt_frames_start_times = [] })) [
        | none ↦ none
        | some ps ↦
            elim (fill ps.tt_frames_start_times (unique (sort ps.time_points)) 0
              (replicate gcl_size 1) (replicate gcl_size 0)) [
                | none ↦ none
                | some (values, intervals) ↦ some (values, map u16 intervals)
              ]
      ]
