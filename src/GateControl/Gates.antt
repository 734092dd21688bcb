-- ===== src/GateControl/Gates.antt =====
-- The gates that `apply_gcl` opens are those of the schedule (topo.cpp).
use ziggo_caa_s_switch.Prelude.{
  ℕ, ◌*◌, ◌≤◌, ◌<◌, ◌≡◌, ◌⊎◌, inl, inr, refl, subst, Bool, true, false, ◌||◌, ◌&&◌, List, [], ◌∷◌,
  ltb, leb, ◌==◌, if◌then◌else◌, All, arith, Bool-cases,
}
use ziggo_caa_s_switch.GateControl.{max_period, elem, gate_value}
use ziggo_caa_s_switch.GateControl.Points.{edges, firsts}
use ziggo_caa_s_switch.GateControl.Table.{IsLatest}

-- The time `u`, in the finer unit, lies in a window.
unfoldable pub covered : List (ℕ × ℕ) → ℕ → Bool
covered [] u = false
covered ((s, e) ∷ ws) u = (leb (s * 8) u && ltb u (e * 8)) || covered ws u

-- The window from `s` to `e` is in the list.
unfoldable pub In : ℕ → ℕ → List (ℕ × ℕ) → Type 0
In s e [] = ⊥
In s e ((s', e') ∷ ws) = ((s' ≡ s) × (e' ≡ e)) ⊎ In s e ws

covered-In :
    (ws : List (ℕ × ℕ)) (u : ℕ)
    → covered ws u ≡ true
    → (s : ℕ) × (e : ℕ) × In s e ws × (s * 8 ≤ u) × (u < e * 8)
unfolding covered In
covered-In [] u h = absurd (cc h)
covered-In ((s, e) ∷ ws) u h = elim (Bool-cases (leb (s * 8) u && ltb u (e * 8))) [
  | inl here ↦ (s, e, inl (refl, refl), ground arith, ground arith)
  | inr there ↦ let (s', e', i, a, b) = covered-In ws u (rw there at h) in (s', e', inr i, a, b)
]

In-covered :
    (ws : List (ℕ × ℕ)) (u s e : ℕ) → In s e ws → s * 8 ≤ u → u < e * 8 → covered ws u ≡ true
unfolding covered In
In-covered [] u s e i a b = absurd i
In-covered ((s', e') ∷ ws) u s e (inl (p, q)) a b = ground arith
In-covered ((s', e') ∷ ws) u s e (inr i) a b = ground (arith, In-covered ws u s e i a b)

firsts-In : (ws : List (ℕ × ℕ)) (r : ℕ) → elem r (firsts ws) ≡ true → (e : ℕ) × In r e ws
unfolding firsts elem In
firsts-In [] r h = absurd (cc h)
firsts-In ((s, e) ∷ ws) r h = elim (Bool-cases (r == s)) [
  | inl same ↦ (e, inl (ground arith, refl))
  | inr other ↦ let (e', i) = firsts-In ws r (rw other at h) in (e', inr i)
]

In-firsts : (ws : List (ℕ × ℕ)) (s e : ℕ) → In s e ws → elem s (firsts ws) ≡ true
unfolding firsts elem In
In-firsts [] s e i = absurd i
In-firsts ((s', e') ∷ ws) s e (inl (p, q)) = ground arith
In-firsts ((s', e') ∷ ws) s e (inr i) = ground (arith, In-firsts ws s e i)

pub edges-In :
    (ws : List (ℕ × ℕ)) (q : ℕ)
    → elem q (edges ws) ≡ true
    → ((e : ℕ) × In q e ws) ⊎ ((s : ℕ) × In s q ws)
unfolding edges elem In
edges-In [] q h = absurd (cc h)
edges-In ((s, e) ∷ ws) q h = elim (Bool-cases (q == s)) [
  | inl first ↦ inl (e, inl (ground arith, refl))
  | inr other ↦ elim (Bool-cases (q == e)) [
    | inl last ↦ inr (s, inl (refl, ground arith))
    | inr more ↦ elim (edges-In ws q (rw (other, more) at h)) [
      | inl (e', i) ↦ inl (e', inr i)
      | inr (s', i) ↦ inr (s', inr i)
    ]
  ]
]

In-edges :
    (ws : List (ℕ × ℕ)) (s e : ℕ)
    → In s e ws
    → (elem s (edges ws) ≡ true) × (elem e (edges ws) ≡ true)
unfolding edges elem In
In-edges [] s e i = absurd i
In-edges ((s', e') ∷ ws) s e (inl (p, q)) = (ground arith, ground arith)
In-edges ((s', e') ∷ ws) s e (inr i) =
    (ground (arith, In-edges ws s e i), ground (arith, In-edges ws s e i))

pub All-In : (P : ℕ × ℕ → Type 0) (ws : List (ℕ × ℕ)) (s e : ℕ) → All P ws → In s e ws → P (s, e)
unfolding In
All-In P [] s e h i = absurd i
All-In P ((s', e') ∷ ws) s e h (inl (p, q)) = subst (λ x. P (x, e)) p (subst (λ y. P (s', y)) q h.0)
All-In P ((s', e') ∷ ws) s e h (inr i) = All-In P ws s e h.1 i

-- A window is not empty and ends within the cycle.
abbrev pub IsProper : ℕ × ℕ → Type 0
IsProper w = (w.0 < w.1) × (w.1 ≤ max_period)

-- No window of the list ends inside `w`.
abbrev pub IsWhole : List (ℕ × ℕ) → ℕ × ℕ → Type 0
IsWhole ws w = All (λ w'. (w'.1 ≤ w.0) ⊎ (w.1 ≤ w'.1)) ws

module _ (ws : List (ℕ × ℕ)) (proper : All IsProper ws) (whole : All (IsWhole ws) ws) (u r : ℕ)
    (bound : u < max_period * 8) (l : IsLatest (0 ∷ max_period ∷ edges ws) u r) where
  -- In a window, the latest time point begins a window.
  latest_covered : covered ws u ≡ true → elem r (firsts ws) ≡ true
  unfolding elem
  latest_covered h =
      let (s, e, i, a, b) = covered-In ws u h in
      let ends = In-edges ws s e i in
      let ge : s ≤ r = l.latest s (ground (arith, ends)) a in
      let p = All-In IsProper ws s e proper i in
      let none_inside = All-In (IsWhole ws) ws s e whole i in
      elim (Bool-cases (r == s)) [
        | inl same ↦
            let eq : s ≡ r = ground arith in
            subst (λ x. elem x (firsts ws) ≡ true) eq (In-firsts ws s e i)
        | inr other ↦
            let gt : s < r = ground arith in
            let begun = l.begun in
            let edge : elem r (edges ws) ≡ true = ground (arith, l.member) in
            elim (edges-In ws r edge) [
              | inl (e', j) ↦ In-firsts ws r e' j
              | inr (s', j) ↦
                  let out = All-In (λ w'. (w'.1 ≤ s) ⊎ (e ≤ w'.1)) ws s' r none_inside j in
                  absurd (omega arith)
            ]
      ]

  -- And the other way round, as the window's end has not passed.
  latest_first_covered : elem r (firsts ws) ≡ true → covered ws u ≡ true
  unfolding elem
  latest_first_covered h =
      let (e, i) = firsts-In ws r h in
      let ends = In-edges ws r e i in
      let p = All-In IsProper ws r e proper i in
      let begun = l.begun in
      elim (Bool-cases (ltb u (e * 8))) [
        | inl within ↦ In-covered ws u r e i begun (ground arith)
        | inr past ↦
            let le : e ≤ r = l.latest e (ground (arith, ends)) (ground arith) in
            absurd (omega arith)
      ]

  pub latest_gate : gate_value (firsts ws) r ≡ (if covered ws u then 1 else 0x102)
  latest_gate = ground (arith, latest_covered, latest_first_covered)
