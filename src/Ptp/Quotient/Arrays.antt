-- ===== src/Ptp/Quotient/Arrays.antt =====
-- The arrays of `uscaledns_div` as numbers (tsn_drivers/ptp_types.c).
use ziggo_caa_s_switch.Prelude.{
  ℕ, ◌+◌, ◌-◌, ◌*◌, ◌≤◌, ◌<◌, ◌≡◌, ◌^◌, arith, negative, nonpos, ltb, leb,
}
use ziggo_caa_s_switch.Ptp.ScaledNs.{UScaledNs}
use ziggo_caa_s_switch.Ptp.Quotient.{Limbs, limbs, compare_array, double_array, subtract_array}

abbrev pub number : Limbs → ℕ
number a = a.l0 + a.l1 * 2 ^ 32 + a.l2 * 2 ^ 64 + a.l3 * 2 ^ 96

pub record InWidth (a : Limbs) : Type 0 where
  pub l0_lt : a.l0 < 2 ^ 32
  pub l1_lt : a.l1 < 2 ^ 32
  pub l2_lt : a.l2 < 2 ^ 32
  pub l3_lt : a.l3 < 2 ^ 32

pub limbs-InWidth : (t : UScaledNs) → InWidth (limbs t) × (number (limbs t) < 2 ^ 96)
unfolding limbs
limbs-InWidth t = omega arith

module _ (a b : Limbs) (wa : InWidth a) (wb : InWidth b) where
  pub compare_array-number :
      (negative (compare_array a b) ≡ ltb (number a) (number b))
      × (nonpos (compare_array a b) ≡ leb (number a) (number b))
  unfolding compare_array
  compare_array-number = ground arith

  pub subtract_array-number :
      number b ≤ number a
      → InWidth (subtract_array a b).0
        × (number (subtract_array a b).0 ≡ number a - number b)
        × ((subtract_array a b).1 ≡ 0)
  unfolding subtract_array
  subtract_array-number h = ground arith

pub double_array-number :
    (a : Limbs)
    → InWidth a
    → number a < 2 ^ 127
    → InWidth (double_array a).0
      × (number (double_array a).0 ≡ 2 * number a)
      × ((double_array a).1 ≡ 0)
unfolding double_array
double_array-number a w h = omega arith
