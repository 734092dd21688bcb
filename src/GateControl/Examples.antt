-- ===== src/GateControl/Examples.antt =====
-- A schedule of two streams, one of which has two periods in the cycle.
use ziggo_caa_s_switch.Prelude.{
  ℕ, ◌≡◌, refl, sym, subst, arith, List, [], ◌∷◌, All, some, replicate,
}
use ziggo_caa_s_switch.GateControl.{
  ScheduleItem, apply_gcl, push_items, push_item, push_frame, push_periods, sort, unique, insert,
  fill, elem,
}
use ziggo_caa_s_switch.GateControl.Points.{windows, period_windows}
use ziggo_caa_s_switch.GateControl.Gates.{IsProper, IsWhole}
use ziggo_caa_s_switch.GateControl.Schedule.{Controls, apply_gcl-Controls}

abbrev schedule : List ScheduleItem
schedule =
    record { period = 2048; start = 100; end_time = 300 }
    ∷ record { period = 1024; start = 400; end_time = 500 }
    ∷ []

abbrev expected : List (ℕ × ℕ)
expected = (100, 300) ∷ (400, 500) ∷ (1424, 1524) ∷ []

schedule-windows : windows schedule ≡ expected
unfolding windows period_windows
schedule-windows = refl

schedule_table :
    apply_gcl schedule
    ≡ some (
      258 ∷ 1 ∷ 258 ∷ 1 ∷ 258 ∷ 1 ∷ 258 ∷ replicate 9 1,
      800 ∷ 1600 ∷ 800 ∷ 800 ∷ 7392 ∷ 800 ∷ 4192 ∷ replicate 9 0,
    )
unfolding apply_gcl push_items push_item push_frame push_periods sort unique insert fill elem
schedule_table = refl

expected-IsProper : All IsProper expected
expected-IsProper = omega arith

expected-IsWhole : All (IsWhole expected) expected
expected-IsWhole = ground arith

apply_gcl-Controls_example : Controls (windows schedule) (apply_gcl schedule)
apply_gcl-Controls_example =
    apply_gcl-Controls schedule (omega arith)
      (subst (λ ws. All IsProper ws) (sym schedule-windows) expected-IsProper)
      (subst (λ ws. All (IsWhole ws) ws) (sym schedule-windows) expected-IsWhole)
