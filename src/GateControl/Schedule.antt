-- ===== src/GateControl/Schedule.antt =====
-- `apply_gcl` on a whole schedule (topo.cpp).
use ziggo_caa_s_switch.Prelude.{
  ℕ, ◌+◌, ◌*◌, ◌≤◌, ◌<◌, ◌≡◌, inl, inr, refl, sym, subst, ◌∙◌, Bool, true, false, List, [], ◌∷◌,
  Option, none, some, leb, ◌==◌, if◌then◌else◌, All, Any, arith, Bool-cases, map, u16, length,
  replicate,
}
use ziggo_caa_s_switch.GateControl.{
  max_period, gcl_size, ScheduleItem, elem, sort, unique, apply_gcl,
}
use ziggo_caa_s_switch.GateControl.Points.{windows, edges, firsts, push_items-collected}
use ziggo_caa_s_switch.GateControl.Sorted.{
  StrictlyAscending, unique-sort-StrictlyAscending, elem-unique-sort,
}
use ziggo_caa_s_switch.GateControl.Table.{
  gate_at, overlay, row_values, row_intervals, fill-rows, fill-none, IsLatest, gate_at-rows,
  All-elem,
}
use ziggo_caa_s_switch.GateControl.Gates.{covered, edges-In, All-In, IsProper, IsWhole, latest_gate}

-- A control value: the eight gates, and above them the bit that enables the Guardband.
abbrev pub control_value : ℕ → Bool → ℕ
control_value gates guardband = if guardband then 0x100 + gates else gates

-- The time points of a schedule: the ends of the cycle and of the windows, in order, each once.
abbrev pub points : List (ℕ × ℕ) → List ℕ
points ws = unique (sort (0 ∷ max_period ∷ edges ws))

All-of_elem : (P : ℕ → Type 0) (xs : List ℕ) → ((q : ℕ) → elem q xs ≡ true → P q) → All P xs
unfolding elem
All-of_elem P [] f = tt
All-of_elem P (x ∷ xs) f = (f x (ground arith), All-of_elem P xs (λ q h. f q (ground (arith, h))))

Any-elem : (u q : ℕ) (xs : List ℕ) → elem q xs ≡ true → u < q * 8 → Any (λ y. u < y * 8) xs
unfolding elem
Any-elem u q [] e h = absurd (cc e)
Any-elem u q (x ∷ xs) e h = elim (Bool-cases (q == x)) [
  | inl same ↦ inl (ground arith)
  | inr other ↦ inr (Any-elem u q xs (rw other at e) h)
]

ascending_head : (p : ℕ) (ps : List ℕ) → StrictlyAscending (p ∷ ps) → elem 0 (p ∷ ps) ≡ true → p ≡ 0
unfolding StrictlyAscending elem
ascending_head p ps a e = elim (Bool-cases (0 == p)) [
  | inl same ↦ ground arith
  | inr other ↦ let lt = All-elem (λ y. p < y) 0 ps a.0 (rw other at e) in absurd (omega arith)
]

module _ (ws : List (ℕ × ℕ)) (proper : All IsProper ws) (whole : All (IsWhole ws) ws) where
  point_le : (q : ℕ) → elem q (points ws) ≡ true → q ≤ max_period
  unfolding elem
  point_le q h =
      let e : elem q (0 ∷ max_period ∷ edges ws) ≡ true =
        sym (elem-unique-sort q (0 ∷ max_period ∷ edges ws)) ∙ h in
      elim (Bool-cases (elem q (edges ws))) [
        | inr inner ↦ ground (arith, e)
        | inl edge ↦ elim (edges-In ws q edge) [
          | inl (e', i) ↦ let p = All-In IsProper ws q e' proper i in omega arith
          | inr (s', i) ↦ let p = All-In IsProper ws s' q proper i in omega arith
        ]
      ]

  IsLatest-points : (u r : ℕ) → IsLatest (points ws) u r → IsLatest (0 ∷ max_period ∷ edges ws) u r
  IsLatest-points u r l =
      let same = elem-unique-sort in
      record {
        member = sym (same r (0 ∷ max_period ∷ edges ws)) ∙ l.member;
        begun = l.begun;
        latest = λ q e b. l.latest q (same q (0 ∷ max_period ∷ edges ws) ∙ e) b;
      }

  -- What the table made from the points does at each time.
  table_gate :
      (p : ℕ) (ps : List ℕ) (u : ℕ)
      → points ws ≡ p ∷ ps
      → length ps ≤ gcl_size
      → u < max_period * 8
      → gate_at
          (overlay (row_values (firsts ws) (p ∷ ps)) (replicate gcl_size 1))
          (map u16 (overlay (row_intervals (p ∷ ps)) (replicate gcl_size 0)))
          u
        ≡ (if covered ws u then control_value 1 false else control_value 2 true)
  unfolding elem
  table_gate p ps u e h b =
      let a =
        subst StrictlyAscending e (unique-sort-StrictlyAscending (0 ∷ max_period ∷ edges ws)) in
      let first : elem 0 (p ∷ ps) ≡ true =
        subst (λ xs. elem 0 xs ≡ true) e (elem-unique-sort 0 (0 ∷ max_period ∷ edges ws)) in
      let last : elem max_period (p ∷ ps) ≡ true =
        subst (λ xs. elem max_period xs ≡ true) e
          (elem-unique-sort max_period (0 ∷ max_period ∷ edges ws)) in
      let start : p ≡ 0 = ascending_head p ps a first in
      let low = subst (All (λ q. q ≤ 2048)) e (All-of_elem (λ q. q ≤ 2048) (points ws) point_le) in
      let (r, l, g) =
        gate_at-rows (firsts ws) p ps (replicate gcl_size 1) (replicate gcl_size 0) u a low h refl
          (Any-elem (p * 8 + u) max_period (p ∷ ps) last (omega arith)) in
      let now : p * 8 + u ≡ u = omega arith in
      let l' = subst (λ w. IsLatest (p ∷ ps) w r) now l in
      g
      ∙ latest_gate ws proper whole u r b
          (IsLatest-points u r (subst (λ xs. IsLatest xs u r) (sym e) l'))

-- The store past the table, or the gates and the Guardband bit of the schedule at every time of the
-- cycle.
abbrev pub Controls : List (ℕ × ℕ) → Option (List ℕ × List ℕ) → Type 0
Controls ws none = gcl_size + 1 < length (points ws)
Controls ws (some (values, intervals)) =
    (length (points ws) ≤ gcl_size + 1)
    × ((u : ℕ)
        → u < max_period * 8
        → gate_at values intervals u
          ≡ (if covered ws u then control_value 1 false else control_value 2 true))

points_cases : (ps : List ℕ) → elem 0 ps ≡ true → (p : ℕ) × (qs : List ℕ) × (ps ≡ p ∷ qs)
unfolding elem
points_cases [] e = absurd (cc e)
points_cases (p ∷ qs) e = (p, qs, refl)

module _ (schedule : List ScheduleItem) (periods : All (λ item. 0 < item.period) schedule) (p : ℕ)
    (ps : List ℕ) (e : points (windows schedule) ≡ p ∷ ps) where
  apply_gcl-some :
      length ps ≤ gcl_size
      → apply_gcl schedule
        ≡ some (
          overlay (row_values (firsts (windows schedule)) (p ∷ ps)) (replicate gcl_size 1),
          map u16 (overlay (row_intervals (p ∷ ps)) (replicate gcl_size 0)),
        )
  unfolding apply_gcl edges firsts
  apply_gcl-some h =
      rw
        (
          apply_gcl,
          push_items-collected schedule [] periods,
          e,
          fill-rows (firsts (windows schedule)) p ps 0 [] (replicate gcl_size 1) []
              (replicate gcl_size 0) refl refl refl refl h,
        )
        refl

  apply_gcl-none : gcl_size < length ps → apply_gcl schedule ≡ none
  unfolding apply_gcl edges firsts
  apply_gcl-none h =
      rw
        (
          apply_gcl,
          push_items-collected schedule [] periods,
          e,
          fill-none (firsts (windows schedule)) p ps 0 (replicate gcl_size 1) (replicate gcl_size 0)
              (omega arith) (omega arith),
        )
        refl

-- `apply_gcl` stores past its table exactly if the schedule has more than 17 time points. Otherwise it
-- ends, and at each time of the cycle the control value is 1 in the windows of the schedule (gate 0
-- alone is open and the Guardband is off), and 0x102 outside them (gate 1 alone is open, and the
-- highest of the nine bits enables the Guardband). The periods are not 0, the windows are not empty,
-- end within the cycle, and no window ends inside another.
pub apply_gcl-Controls :
    (schedule : List ScheduleItem)
    → All (λ item. 0 < item.period) schedule
    → All IsProper (windows schedule)
    → All (IsWhole (windows schedule)) (windows schedule)
    → Controls (windows schedule) (apply_gcl schedule)
unfolding elem
apply_gcl-Controls schedule periods proper whole =
    let ws = windows schedule in
    let first : elem 0 (points ws) ≡ true = elem-unique-sort 0 (0 ∷ max_period ∷ edges ws) in
    let (p, qs, e) = points_cases (points ws) first in
    elim (Bool-cases (leb (length qs) gcl_size)) [
      | inl room ↦
          let le : length qs ≤ gcl_size = ground arith in
          rw (apply_gcl-some schedule periods p qs e le)
            (rw e (omega arith), λ u b. table_gate ws proper whole p qs u e le b)
      | inr full ↦
          let gt : gcl_size < length qs = ground arith in
          rw (apply_gcl-none schedule periods p qs e gt, e) (omega arith)
    ]
