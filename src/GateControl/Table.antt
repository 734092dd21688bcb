-- ===== src/GateControl/Table.antt =====
-- The table that `apply_gcl` writes, and the gates that it opens over time (topo.cpp). The unit of a
-- time within the table is 2 ^ 11 ns, eight to the unit of the schedule.
use ziggo_caa_s_switch.Prelude.{
  ℕ, zero, suc, ◌+◌, ◌-◌, ◌*◌, ◌≤◌, ◌<◌, ◌≡◌, inl, inr, refl, sym, ap, subst, ◌∙◌, true, false,
  List, [], ◌∷◌, ◌++◌, none, some, ltb, ◌==◌, if◌then◌else◌, All, Any, arith, Bool-cases,
  append_assoc, set, map, u16, length, length-append, lt→ltb,
}
use ziggo_caa_s_switch.GateControl.{gcl_size, elem, gate_value, fill}
use ziggo_caa_s_switch.GateControl.Sorted.{StrictlyAscending}

-- What the gates do at the time `u` of the cycle: the entries follow each other.
unfoldable pub gate_at : List ℕ → List ℕ → ℕ → ℕ
gate_at [] ds u = 0
gate_at (v ∷ vs) [] u = 0
gate_at (v ∷ vs) (d ∷ ds) u = let rest = gate_at vs ds (u - d) in if ltb u d then v else rest

-- The first entries are overwritten.
unfoldable pub overlay : List ℕ → List ℕ → List ℕ
overlay [] ys = ys
overlay (x ∷ xs) [] = []
overlay (x ∷ xs) (y ∷ ys) = x ∷ overlay xs ys

unfoldable pub row_values : List ℕ → List ℕ → List ℕ
row_values starts [] = []
row_values starts (p ∷ []) = []
row_values starts (p ∷ q ∷ ps) = gate_value starts p ∷ row_values starts (q ∷ ps)

unfoldable pub row_intervals : List ℕ → List ℕ
row_intervals [] = []
row_intervals (p ∷ []) = []
row_intervals (p ∷ q ∷ ps) = (q - p) * 8 ∷ row_intervals (q ∷ ps)

set-append :
    (xs ys : List ℕ) (y v i : ℕ) → length xs ≡ i → set (xs ++ y ∷ ys) i v ≡ (xs ++ v ∷ []) ++ ys
set-append [] ys y v i h = rw (sym h) refl
set-append (x ∷ xs) ys y v zero h = absurd (omega arith)
set-append (x ∷ xs) ys y v (suc i) h = ap (◌∷◌ x) (set-append xs ys y v i (omega arith))

-- With room for the intervals between the points, the loop writes one entry for each.
pub fill-rows :
    (starts : List ℕ) (p : ℕ) (ps : List ℕ) (i : ℕ) (vs vr ts tr : List ℕ)
    → length vs ≡ i
    → length ts ≡ i
    → i + length vr ≡ gcl_size
    → length tr ≡ length vr
    → length ps ≤ length vr
    → fill starts (p ∷ ps) i (vs ++ vr) (ts ++ tr)
      ≡ some
          (vs ++ overlay (row_values starts (p ∷ ps)) vr, ts ++ overlay (row_intervals (p ∷ ps)) tr)
unfolding fill overlay row_values row_intervals
fill-rows starts p [] i vs vr ts tr a b c d e = refl
fill-rows starts p (q ∷ ps) i vs [] ts tr a b c d e = absurd (omega arith)
fill-rows starts p (q ∷ ps) i vs (v ∷ vr) ts [] a b c d e = absurd (omega arith)
fill-rows starts p (q ∷ ps) i vs (v ∷ vr) ts (t ∷ tr) a b c d e =
    let g = gate_value starts p in
    let k = (q - p) * 8 in
    let room : ltb i gcl_size ≡ true = lt→ltb i gcl_size (omega arith) in
    rw (room, set-append vs vr v g i a, set-append ts tr t k i b)
      (fill-rows starts q ps (i + 1) (vs ++ g ∷ []) vr (ts ++ k ∷ []) tr
          (omega (arith, length-append vs (g ∷ []))) (omega (arith, length-append ts (k ∷ [])))
          (omega arith) (omega arith) (omega arith)
        ∙ rw (
          append_assoc vs (g ∷ []) (overlay (row_values starts (q ∷ ps)) vr),
          append_assoc ts (k ∷ []) (overlay (row_intervals (q ∷ ps)) tr),
        ))

-- Without the room, it stores past the end.
pub fill-none :
    (starts : List ℕ) (p : ℕ) (ps : List ℕ) (i : ℕ) (vs ts : List ℕ)
    → i ≤ gcl_size
    → gcl_size < i + length ps
    → fill starts (p ∷ ps) i vs ts ≡ none
unfolding fill
fill-none starts p [] i vs ts h k = absurd (omega arith)
fill-none starts p (q ∷ ps) i vs ts h k = elim (Bool-cases (ltb i gcl_size)) [
  | inl room ↦ rw room (fill-none starts q ps (i + 1) _ _ (ground arith) (omega arith))
  | inr full ↦ rw full
]

pub All-elem : (P : ℕ → Type 0) (q : ℕ) (xs : List ℕ) → All P xs → elem q xs ≡ true → P q
unfolding elem
All-elem P q [] h e = absurd (cc e)
All-elem P q (x ∷ xs) h e = elim (Bool-cases (q == x)) [
  | inl same ↦ let eq : x ≡ q = ground arith in subst P eq h.0
  | inr other ↦ All-elem P q xs h.1 (rw other at e)
]

-- `r` is the latest of the points up to the time `u`, in the finer unit.
pub record IsLatest (ps : List ℕ) (u r : ℕ) : Type 0 where
  pub member : elem r ps ≡ true
  pub begun : r * 8 ≤ u
  pub latest : (q : ℕ) → elem q ps ≡ true → q * 8 ≤ u → q ≤ r

IsLatest-cons :
    (p q : ℕ) (ps : List ℕ) (u r : ℕ)
    → p < q
    → IsLatest (q ∷ ps) u r
    → q ≤ r
    → IsLatest (p ∷ q ∷ ps) u r
unfolding elem
IsLatest-cons p q ps u r h l k = record {
  member = ground (arith, l.member);
  begun = l.begun;
  latest = λ q' e b. elim (Bool-cases (q' == p)) [
    | inl same ↦ ground arith
    | inr other ↦ l.latest q' (rw other at e) b
  ];
}

IsLatest-first :
    (p q : ℕ) (ps : List ℕ) (u : ℕ)
    → All (λ y. q < y) ps
    → p * 8 ≤ u
    → u < q * 8
    → IsLatest (p ∷ q ∷ ps) u p
unfolding elem
IsLatest-first p q ps u h a b = record {
  member = ground arith;
  begun = a;
  latest = λ q' e c. elim (Bool-cases (q' == p)) [
    | inl same ↦ ground arith
    | inr other ↦ elim (Bool-cases (q' == q)) [
      | inl same ↦ ground arith
      | inr more ↦ let gt = All-elem (λ y. q < y) q' ps h (rw (other, more) at e) in omega arith
    ]
  ];
}

gate_at-within :
    (v : ℕ) (vs : List ℕ) (d : ℕ) (ds : List ℕ) (u : ℕ)
    → u16 d ≡ d
    → ltb u d ≡ true
    → gate_at (v ∷ vs) (map u16 (d ∷ ds)) u ≡ v
unfolding gate_at
gate_at-within v vs d ds u w h = rw (w, h)

gate_at-after :
    (v : ℕ) (vs : List ℕ) (d : ℕ) (ds : List ℕ) (u : ℕ)
    → u16 d ≡ d
    → ltb u d ≡ false
    → gate_at (v ∷ vs) (map u16 (d ∷ ds)) u ≡ gate_at vs (map u16 ds) (u - d)
unfolding gate_at
gate_at-after v vs d ds u w h = rw (w, h)

elem_head : (q : ℕ) (ps : List ℕ) → elem q (q ∷ ps) ≡ true
unfolding elem
elem_head q ps = ground arith

later_points :
    (p : ℕ) (ps : List ℕ) (u : ℕ)
    → Any (λ q. p * 8 + u < q * 8) (p ∷ ps)
    → Any (λ q. p * 8 + u < q * 8) ps
later_points p ps u (inl h) = absurd (omega arith)
later_points p ps u (inr h) = h

module _ (starts : List ℕ) where
  -- Over strictly ascending points up to 2048, the table that was written opens at each time before
  -- the last point the gates of the latest point.
  pub gate_at-rows :
      (p : ℕ) (ps vr tr : List ℕ) (u : ℕ)
      → StrictlyAscending (p ∷ ps)
      → All (λ q. q ≤ 2048) (p ∷ ps)
      → length ps ≤ length vr
      → length tr ≡ length vr
      → Any (λ q. p * 8 + u < q * 8) (p ∷ ps)
      → (r : ℕ) × IsLatest (p ∷ ps) (p * 8 + u) r
        × (gate_at
              (overlay (row_values starts (p ∷ ps)) vr)
              (map u16 (overlay (row_intervals (p ∷ ps)) tr))
              u
            ≡ gate_value starts r)
  unfolding overlay row_values row_intervals StrictlyAscending
  gate_at-rows p [] vr tr u a b c d e = absurd (ground arith)
  gate_at-rows p (q ∷ ps) [] tr u a b c d e = absurd (omega arith)
  gate_at-rows p (q ∷ ps) (v ∷ vr) [] u a b c d e = absurd (omega arith)
  gate_at-rows p (q ∷ ps) (v ∷ vr) (t ∷ tr) u a b c d e =
      let lt = a.0.0 in
      let le = b.1.0 in
      let width : u16 ((q - p) * 8) ≡ (q - p) * 8 = omega arith in
      elim (Bool-cases (ltb u ((q - p) * 8))) [
        | inl within ↦ (
          p,
          IsLatest-first p q ps (p * 8 + u) a.1.0 (omega arith) (ground arith),
          gate_at-within _ _ _ _ u width within,
        )
        | inr after ↦
            let ge : (q - p) * 8 ≤ u = ground arith in
            let time : q * 8 + (u - (q - p) * 8) ≡ p * 8 + u = omega arith in
            let later =
              subst (λ w. Any (λ q'. w < q' * 8) (q ∷ ps)) (sym time)
                (later_points p (q ∷ ps) u e) in
            let (r, l, g) =
              gate_at-rows q ps vr tr (u - (q - p) * 8) a.1 b.1 (omega arith) (omega arith) later in
            let l' = subst (λ w. IsLatest (q ∷ ps) w r) time l in
            let above : q ≤ r = l'.latest q (elem_head q ps) (omega arith) in
            (
              r,
              IsLatest-cons p q ps (p * 8 + u) r lt l' above,
              gate_at-after _ _ _ _ u width after ∙ g,
            )
      ]
