-- ===== src/Ptp/Quotient/Examples.antt =====
-- Quotients of times: exact, rounded, and by 0.
use ziggo_caa_s_switch.Prelude.{ℕ, ◌*◌, ◌≡◌, refl, ◌^◌, none, some}
use ziggo_caa_s_switch.Ptp.ScaledNs.{UScaledNs}
use ziggo_caa_s_switch.Ptp.Quotient.{
  limbs, compare_array, double_array, subtract_array, scale_loop, excess, nearest, divide_loop,
  uscaledns_div,
}

abbrev ns : ℕ → UScaledNs
ns n = record { subns = 0; nsec = n; nsec_msb = 0 }

three_halves_test : uscaledns_div (ns 3) (ns 2) ≡ some (record { num = 3 * 2 ^ 31; scale = 32 })
unfolding uscaledns_div limbs compare_array double_array subtract_array scale_loop excess nearest
    divide_loop
three_halves_test = refl

-- A power of two is found by doubling alone.
eight_test : uscaledns_div (ns 8000) (ns 1000) ≡ some (record { num = 8; scale = 0 })
unfolding uscaledns_div limbs compare_array double_array scale_loop
eight_test = refl

-- 2 ^ 60 / 3 does not fit 53 bits.
rounded_test :
    uscaledns_div (ns (2 ^ 60)) (ns 3)
    ≡ some (record { num = 1650586719047173608239529984; scale = 32 })
unfolding uscaledns_div limbs compare_array double_array subtract_array scale_loop excess nearest
    divide_loop
rounded_test = refl

by_zero_test : uscaledns_div (ns 7) (ns 0) ≡ none
unfolding uscaledns_div limbs compare_array double_array scale_loop
by_zero_test = refl
