-- ===== src/Ptp/Quotient/Returns.antt =====
-- `uscaledns_div` returns where the divisor is not 0, and fails no assertion (tsn_drivers/ptp_types.c).
use ziggo_caa_s_switch.Prelude.{
  ℕ, zero, suc, ◌+◌, ◌*◌, ◌≤◌, ◌<◌, ◌≡◌, ◌^◌, inl, inr, refl, true, false, arith, Option, none,
  some, ltb, leb, ◌==◌, Bool-cases, Option-cases,
}
use ziggo_caa_s_switch.Ptp.ScaledNs.{UScaledNs}
use ziggo_caa_s_switch.Ptp.Doubles.{Double}
use ziggo_caa_s_switch.Ptp.Quotient.{
  Limbs, limbs, double_array, subtract_array, scale_loop, scale_fuel, nearest, divide_loop,
  uscaledns_div,
}
use ziggo_caa_s_switch.Ptp.Quotient.Arrays.{
  number, InWidth, limbs-InWidth, compare_array-number, double_array-number, subtract_array-number,
}

-- The divisor is scaled to at least `a`, and its doubles still fit.
abbrev IsScaled : Limbs → Option (Limbs × ℕ) → Type 0
IsScaled a none = ⊥
IsScaled a (some (b, k)) = InWidth b × (number a ≤ number b) × (number b < 2 ^ 97)

abbrev Returns : Option Double → Type 0
Returns none = ⊥
Returns (some r) = Unit

doubled : (x y n : ℕ) → x < y * 2 ^ suc n → x < 2 * y * 2 ^ n
doubled x y n h = let p : 2 ^ suc n ≡ 2 ^ n * 2 = ground arith in grind arith

scale_loop-IsScaled :
    (fuel : ℕ) (a b : Limbs) (k : ℕ)
    → InWidth a
    → InWidth b
    → number a < 2 ^ 96
    → number b < 2 ^ 97
    → number a < number b * 2 ^ fuel
    → IsScaled a (scale_loop (suc fuel) a b k)
unfolding scale_loop
scale_loop-IsScaled zero a b k wa wb ha hb h =
    let c = (compare_array-number a b wa wb).1 in
    let le : leb (number a) (number b) ≡ true = ground arith in
    rw (scale_loop, c, le) (wb, ground arith, hb)
scale_loop-IsScaled (suc fuel) a b k wa wb ha hb h =
    let c = (compare_array-number a b wa wb).1 in
    elim (Bool-cases (leb (number a) (number b))) [
      | inl le ↦ rw (scale_loop, c, le) (wb, ground arith, hb)
      | inr gt ↦
          let below : number b < number a = ground arith in
          let (w, e, z) = double_array-number b wb (omega arith) in
          rw (scale_loop, c, gt, z)
            (scale_loop-IsScaled fuel a (double_array b).0 (k + 1) wa w ha (omega arith)
              (rw e (doubled (number a) (number b) fuel h)))
    ]

divide_loop-Returns :
    (i : ℕ) (a b : Limbs) (r : ℕ)
    → InWidth a
    → InWidth b
    → number a < number b
    → number b < 2 ^ 97
    → Returns (divide_loop i a b r)
unfolding divide_loop
divide_loop-Returns zero a b r wa wb h hb = tt
divide_loop-Returns (suc i) a b r wa wb h hb =
    let (w, e, z) = double_array-number a wa (omega arith) in
    let a' = (double_array a).0 in
    let (lt, le) = compare_array-number a' b w wb in
    elim (Bool-cases (ltb (number a') (number b))) [
      | inl below ↦
          rw (divide_loop, z, lt, below) (divide_loop-Returns i a' b r w wb (ground arith) hb)
      | inr above ↦
          let (w', e', z') = subtract_array-number a' b w wb (ground arith) in
          elim (Bool-cases (leb (number a') (number b))) [
            | inl same ↦ rw (divide_loop, z, lt, above, z', le, same) tt
            | inr other ↦
                rw (divide_loop, z, lt, above, z', le, other)
                  (divide_loop-Returns i (subtract_array a' b).0 b (nearest (r + 2 ^ i)) w' wb
                    (omega arith) hb)
          ]
    ]

-- Where the divisor is not 0, `uscaledns_div` returns: neither loop runs out of its fuel, and no
-- assertion fails.
pub uscaledns_div-Returns :
    (t1 t2 : UScaledNs) → 0 < number (limbs t2) → Returns (uscaledns_div t1 t2)
unfolding uscaledns_div
uscaledns_div-Returns t1 t2 h =
    let (wa, ha) = limbs-InWidth t1 in
    let (wb, hb) = limbs-InWidth t2 in
    let s = scale_loop-IsScaled 96 (limbs t1) (limbs t2) 0 wa wb ha (omega arith) (omega arith) in
    elim (Option-cases (scale_loop scale_fuel (limbs t1) (limbs t2) 0)) [
      | inl bad ↦ absurd (rw bad at s)
      | inr ((b, k), e) ↦
          let (w, le, lt) = rw e at s in
          let c = (compare_array-number (limbs t1) b wa w).0 in
          elim (Bool-cases (ltb (number (limbs t1)) (number b))) [
            | inl below ↦
                rw (uscaledns_div, e)
                  (rw (c, below)
                    (divide_loop-Returns (k + 32) (limbs t1) b 0 wa w (ground arith) lt))
            | inr above ↦ rw (uscaledns_div, e) (rw (c, above) tt)
          ]
    ]

-- By 0, a number that is not 0 is never divided: whatever the fuel, the loop that doubles the divisor
-- does not end.
pub scale_loop-diverges :
    (fuel : ℕ) (a b : Limbs) (k : ℕ)
    → InWidth a
    → InWidth b
    → 0 < number a
    → number b ≡ 0
    → scale_loop fuel a b k ≡ none
unfolding scale_loop
scale_loop-diverges zero a b k wa wb h e = refl
scale_loop-diverges (suc fuel) a b k wa wb h e =
    let c = (compare_array-number a b wa wb).1 in
    let gt : leb (number a) (number b) ≡ false = ground arith in
    let (w, d, z) = double_array-number b wb (omega arith) in
    rw (scale_loop, c, gt, z)
      (scale_loop-diverges fuel a (double_array b).0 (k + 1) wa w h (omega arith))

pub uscaledns_div-none : (t1 t2 : UScaledNs) → uscaledns_div t1 t2 ≡ none → number (limbs t2) ≡ 0
uscaledns_div-none t1 t2 e = elim (Bool-cases (number (limbs t2) == 0)) [
  | inl zero_eq ↦ ground arith
  | inr other ↦ absurd (rw e at (uscaledns_div-Returns t1 t2 (ground arith)))
]
