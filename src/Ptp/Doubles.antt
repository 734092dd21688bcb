-- ===== src/Ptp/Doubles.antt =====
-- The finite doubles that are not negative, as exact fractions, and their conversion to `UScaledNs`
-- (tsn_drivers/ptp_types.c). Doubling, taking off 1, `floor` and the comparisons are exact on them.
pub mod Rounding
use ziggo_caa_s_switch.Prelude.{
  ℕ, zero, suc, ◌+◌, ◌-◌, ◌*◌, ◌/◌, ◌%◌, ◌^◌, Bool, true, false, ltb, ◌==◌, if◌then◌else◌, u16, u64,
}
use ziggo_caa_s_switch.Ptp.ScaledNs.{UScaledNs, uscaledns_mul}

-- num / 2 ^ scale
pub record Double : Type 0 where
  pub num : ℕ
  pub scale : ℕ

abbrev pub one : Double
one = record { num = 1; scale = 0 }

-- The loop of `uscaledns_double` over the bits of `subns`, for a rest of `f / unit`: the bits that
-- it sets, and the rest that it leaves.
unfoldable pub fraction_bits : ℕ → ℕ → ℕ → ℕ × ℕ
fraction_bits unit f zero = (0, f)
fraction_bits unit f (suc k) = elim (ltb unit (f * 2)) [
  | true ↦ let (bits, rest) = fraction_bits unit (f * 2 - unit) k in (2 ^ k + bits, rest)
  | false ↦ fraction_bits unit (f * 2) k
]

unfoldable pub round_up : UScaledNs → UScaledNs
round_up t =
    if t.subns == 0xffff
    then (if t.nsec == 0xffff_ffff_ffff_ffff
        then record { subns = 0; nsec = 0; nsec_msb = u16 (t.nsec_msb + 1) }
        else record t { subns = 0; nsec = t.nsec + 1 })
    else record t { subns = t.subns + 1 }

-- The limbs of the whole number and the bits of the fraction.
abbrev pub with_bits : ℕ → ℕ → UScaledNs
with_bits whole bits = record { subns = bits; nsec = u64 whole; nsec_msb = u16 (whole / 2 ^ 64) }

unfoldable pub uscaledns_double : Double → UScaledNs
uscaledns_double r =
    let unit = 2 ^ r.scale in
    let (bits, rest) = fraction_bits unit (r.num % unit) 16 in
    let t = with_bits (r.num / unit) bits in if ltb unit (rest * 2) then round_up t else t

unfoldable pub uscaledns_mul_double : UScaledNs → Double → UScaledNs
uscaledns_mul_double t1 r = uscaledns_mul t1 (uscaledns_double r)

-- `fabs(r - 1.0) > 1e-3`; the double next to 1e-3 is 4611686018427388 / 2 ^ 62. Where `r - 1.0` is rounded,
-- it is far off on both sides of the rounding.
unfoldable pub is_off_one : Double → Bool
is_off_one r =
    ltb (4611686018427388 * 2 ^ r.scale) ((r.num - 2 ^ r.scale + (2 ^ r.scale - r.num)) * 2 ^ 62)
