-- ===== src/Bmca/StateSelection/Choice.antt =====
-- The loop of `updtStatesTree` that chooses the grandmaster's vector (port_state_selection_sm.c).
use ziggo_caa_s_switch.Prelude.{
  ℕ, false, ◌≡◌, ◌≢◌, ◌⊎◌, inl, inr, refl, ◌∙◌, List, [], ◌∷◌, arith, All, Any,
}
use ziggo_caa_s_switch.Ptp.Priority.{
  PriorityVector, superior_priority, compare_priority_vectors, memcmp, is_zero,
}
use ziggo_caa_s_switch.Ptp.Priority.Order.{
  IsWhole, compare_priority_vectors-eq_iff, compare_priority_vectors_swap,
  compare_priority_vectors_trans,
}
use ziggo_caa_s_switch.Ptp.Globals.{PerPortGlobal, PerPtpInstanceGlobal}
use ziggo_caa_s_switch.Bmca.StateSelection.{gm_path_priority, consider, choose_gm, is_disabled}

-- `b` is not beaten by `a`.
abbrev pub NotBeaten : PriorityVector → PriorityVector → Type 0
NotBeaten b a = compare_priority_vectors a b ≢ superior_priority

NotBeaten-refl : (a : PriorityVector) → IsWhole a → NotBeaten a a
NotBeaten-refl a u e = ground (arith, (compare_priority_vectors-eq_iff a a u u).1 refl)

NotBeaten-subst :
    (a b c : PriorityVector)
    → NotBeaten b a
    → compare_priority_vectors a c ≡ superior_priority
    → b ≢ c
NotBeaten-subst a b c p e h = p (rw h e)

NotBeaten-trans :
    (a b c : PriorityVector)
    → IsWhole a
    → IsWhole b
    → IsWhole c
    → NotBeaten b a
    → NotBeaten c b
    → NotBeaten c a
NotBeaten-trans a b c u v w p q e = ground (
  arith,
  compare_priority_vectors_swap b c v w,
  compare_priority_vectors-eq_iff b c v w,
  compare_priority_vectors_trans a c b u w v,
  p,
  q,
  NotBeaten-subst a b c p e,
)

NotBeaten-of_superior :
    (a b : PriorityVector)
    → IsWhole a
    → IsWhole b
    → compare_priority_vectors a b ≡ superior_priority
    → NotBeaten a b
NotBeaten-of_superior a b u v e f = ground (arith, compare_priority_vectors_swap a b u v)

-- A port whose vector may replace the best one: not disabled, and not an echo of this clock.
abbrev pub IsEligible : List ℕ → PerPortGlobal → Type 0
IsEligible clock p =
    (is_disabled p.info_is ≡ false)
    × (is_zero (memcmp (gm_path_priority p).source_port_clock_identity clock) ≡ false)

pub gm_path_priority-IsWhole :
    (p : PerPortGlobal) → IsWhole p.port_priority → IsWhole (gm_path_priority p)
unfolding gm_path_priority
gm_path_priority-IsWhole p w = ground arith

-- What one round guarantees of the vector that it leaves.
record Considered (clock : List ℕ) (g : PerPtpInstanceGlobal) (p : PerPortGlobal)
    (g' : PerPtpInstanceGlobal) : Type 0 where
  whole : IsWhole g'.gm_priority
  clock_kept : g'.this_clock ≡ clock
  old : NotBeaten g'.gm_priority g.gm_priority
  path : IsEligible clock p → NotBeaten g'.gm_priority (gm_path_priority p)

consider-Considered :
    (clock : List ℕ) (g : PerPtpInstanceGlobal) (p : PerPortGlobal)
    → g.this_clock ≡ clock
    → IsWhole g.gm_priority
    → IsWhole (gm_path_priority p)
    → Considered clock g p (consider g p)
unfolding consider
consider-Considered clock g p e u w = ground (
  arith,
  NotBeaten-refl g.gm_priority u,
  NotBeaten-refl (gm_path_priority p) w,
  NotBeaten-of_superior (gm_path_priority p) g.gm_priority w u,
)

-- The loop never ends with a vector that the one it began with beats, nor one that the vector of
-- an eligible port beats.
pub choose_gm-best :
    (clock : List ℕ) (ps : List PerPortGlobal) (g : PerPtpInstanceGlobal)
    → g.this_clock ≡ clock
    → IsWhole g.gm_priority
    → All (λ p. IsWhole p.port_priority) ps
    → IsWhole (choose_gm g ps).gm_priority
      × NotBeaten (choose_gm g ps).gm_priority g.gm_priority
      × All
          (λ p. IsEligible clock p → NotBeaten (choose_gm g ps).gm_priority (gm_path_priority p))
          ps
unfolding choose_gm
choose_gm-best clock [] g e u ws = (u, NotBeaten-refl g.gm_priority u, tt)
choose_gm-best clock (p ∷ ps) g e u (w, ws) =
    let pw = gm_path_priority-IsWhole p w in
    let c = consider-Considered clock g p e u pw in
    let g' = consider g p in
    let (whole, old, rest) = choose_gm-best clock ps g' c.clock_kept c.whole ws in
    let last = (choose_gm g' ps).gm_priority in
    (
      whole,
      NotBeaten-trans g.gm_priority g'.gm_priority last u c.whole whole c.old old,
      (
        λ el.
            NotBeaten-trans (gm_path_priority p) g'.gm_priority last pw c.whole whole (c.path el)
              old,
        rest,
      ),
    )

consider_source :
    (clock : List ℕ) (g : PerPtpInstanceGlobal) (p : PerPortGlobal)
    → g.this_clock ≡ clock
    → ((consider g p).this_clock ≡ clock)
      × ((((consider g p).gm_priority ≡ g.gm_priority) × ((consider g p).time ≡ g.time))
          ⊎ (IsEligible clock p
              × ((consider g p).gm_priority ≡ gm_path_priority p)
              × ((consider g p).time ≡ p.ann_time)))
unfolding consider
consider_source clock g p e = ground arith

pub choose_gm-clock :
    (clock : List ℕ) (ps : List PerPortGlobal) (g : PerPtpInstanceGlobal)
    → g.this_clock ≡ clock
    → (choose_gm g ps).this_clock ≡ clock
unfolding choose_gm
choose_gm-clock clock [] g e = e
choose_gm-clock clock (p ∷ ps) g e =
    choose_gm-clock clock ps (consider g p) (consider_source clock g p e).0

-- The vector that the loop ends with is the one that it began with, or that of an eligible port,
-- whose announced time properties then go with it.
pub choose_gm-source :
    (clock : List ℕ) (ps : List PerPortGlobal) (g : PerPtpInstanceGlobal)
    → g.this_clock ≡ clock
    → let r = choose_gm g ps in
      ((r.gm_priority ≡ g.gm_priority) × (r.time ≡ g.time))
      ⊎ Any
          (λ p. IsEligible clock p × (r.gm_priority ≡ gm_path_priority p) × (r.time ≡ p.ann_time))
          ps
unfolding choose_gm
choose_gm-source clock [] g e = inl (refl, refl)
choose_gm-source clock (p ∷ ps) g e =
    let (kept, round) = consider_source clock g p e in
    elim (choose_gm-source clock ps (consider g p) kept) [
      | inr later ↦ inr (inr later)
      | inl (v, t) ↦ elim round [
        | inl (v', t') ↦ inl (v ∙ v', t ∙ t')
        | inr (el, v', t') ↦ inr (inl (el, v ∙ v', t ∙ t'))
      ]
    ]
