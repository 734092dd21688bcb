-- ===== src/Ptp/Doubles/Rounding.antt =====
-- `uscaledns_double` rounds to the nearest number of 2 ^ -16 ns, and multiplying by the ratio 1.0
-- changes nothing below 2 ^ 32 ns.
use native.Mathlib.Nat.{pow-suc}
use ziggo_caa_s_switch.Prelude.{
  ℕ, zero, suc, ◌+◌, ◌-◌, ◌*◌, ◌/◌, ◌%◌, ◌^◌, ◌≤◌, ◌<◌, ◌≡◌, refl, ap, arith, inl, inr, true, false,
  Bool-cases, ltb, ◌∙◌, u16, u64,
}
use ziggo_caa_s_switch.Ptp.ScaledNs.{UScaledNs, uscaledns_mul, from_columns, limb0, limb1, limb2}
use ziggo_caa_s_switch.Ptp.ScaledNs.Value.{value, InWidth}
use ziggo_caa_s_switch.Ptp.Doubles.{
  Double, with_bits, one, fraction_bits, round_up, uscaledns_double, uscaledns_mul_double,
}

bit_set :
    (p b r unit f d : ℕ)
    → d + unit ≡ f * 2
    → b * unit + r ≡ d * p
    → (p + b) * unit + r ≡ f * (p * 2)
bit_set p b r unit f d e h = grind (arith, ap (λ (t : ℕ). t * p) e)

-- The bits and the rest make up the fraction, and the rest is at most a unit.
pub fraction_bits_sum :
    (unit f k : ℕ)
    → f ≤ unit
    → ((fraction_bits unit f k).0 * unit + (fraction_bits unit f k).1 ≡ f * 2 ^ k)
      × ((fraction_bits unit f k).1 ≤ unit)
unfolding fraction_bits
fraction_bits_sum unit f zero h = (omega arith, h)
fraction_bits_sum unit f (suc k) h = elim (Bool-cases (ltb unit (f * 2))) [
  | inl e ↦
      let ih = fraction_bits_sum unit (f * 2 - unit) k (ground arith) in
      rw (e, fraction_bits)
        (rw (pow-suc 2 k) (bit_set (2 ^ k) _ _ unit f (f * 2 - unit) (ground arith) ih.0), ih.1)
  | inr e ↦
      let ih = fraction_bits_sum unit (f * 2) k (ground arith) in
      rw (e, fraction_bits) (rw (pow-suc 2 k) (grind (arith, ih.0)), ih.1)
]

value-round_up : (t : UScaledNs) → InWidth t → t.nsec_msb ≡ 0 → value (round_up t) ≡ value t + 1
unfolding round_up
value-round_up t v z = ground arith

lt_of_mul : (a b c : ℕ) → a * c < b * c → a < b
lt_of_mul a b c h = grind arith

pos_pow : (k : ℕ) → 0 < 2 ^ k
pos_pow zero = omega arith
pos_pow (suc k) = rw (pow-suc 2 k) (omega (arith, pos_pow k))

div_mod : (n d : ℕ) → 0 < d → (n / d * d + n % d ≡ n) × (n % d < d)
div_mod n d h = (grind arith, grind arith)

-- The truncated number, in units of 2 ^ -16 ns.
value-with_bits :
    (whole bits : ℕ)
    → whole < 2 ^ 64
    → bits < 65536
    → (value (with_bits whole bits) ≡ bits + 65536 * whole)
      × (value (round_up (with_bits whole bits)) ≡ bits + 65536 * whole + 1)
value-with_bits whole bits h k =
    let z : u16 (whole / 2 ^ 64) ≡ 0 = omega arith in
    let v : InWidth (with_bits whole bits) = record {
      subns_lt = k;
      nsec_lt = omega arith;
      msb_lt = omega arith;
    } in
    let e : value (with_bits whole bits) ≡ bits + 65536 * whole = omega arith in
    (e, value-round_up (with_bits whole bits) v z ∙ ap (λ (n : ℕ). n + 1) e)

-- `v` is within half a unit of `x`.
abbrev pub IsNearest : ℕ → ℕ → ℕ → Type 0
IsNearest v unit x = (2 * (v * unit) ≤ 2 * x + unit) × (2 * x ≤ 2 * (v * unit) + unit)

IsNearest-down :
    (v unit rest x : ℕ) → v * unit + rest ≡ x → ltb unit (rest * 2) ≡ false → IsNearest v unit x
IsNearest-down v unit rest x e h = ground arith

IsNearest-up :
    (v unit rest x : ℕ)
    → v * unit + rest ≡ x
    → rest ≤ unit
    → ltb unit (rest * 2) ≡ true
    → IsNearest (v + 1) unit x
IsNearest-up v unit rest x e k h = ground arith

-- `uscaledns_double` rounds a double below 2 ^ 64 to a nearest number of 2 ^ -16 ns: it is at most half
-- of that away.
pub value-uscaledns_double :
    (r : Double)
    → r.num / 2 ^ r.scale < 2 ^ 64
    → IsNearest (value (uscaledns_double r)) (2 ^ r.scale) (r.num * 65536)
unfolding uscaledns_double
value-uscaledns_double r small =
    let unit = 2 ^ r.scale in
    let whole = r.num / unit in
    let bits = (fraction_bits unit (r.num % unit) 16).0 in
    let rest = (fraction_bits unit (r.num % unit) 16).1 in
    let q = div_mod r.num unit (pos_pow r.scale) in
    let s = fraction_bits_sum unit (r.num % unit) 16 (omega arith) in
    let lt = lt_of_mul bits 65536 unit (omega (arith, q, s)) in
    let v = value-with_bits whole bits small lt in
    let total : (bits + 65536 * whole) * unit + rest ≡ r.num * 65536 = grind (arith, q.0, s.0) in
    elim (Bool-cases (ltb unit (rest * 2))) [
      | inl up ↦ rw (up, v.1) (IsNearest-up _ unit rest _ total s.1 up)
      | inr down ↦ rw (down, v.0) (IsNearest-down _ unit rest _ total down)
    ]

uscaledns_double-one : uscaledns_double one ≡ record { subns = 0; nsec = 1; nsec_msb = 0 }
unfolding uscaledns_double fraction_bits
uscaledns_double-one = refl

-- The columns of a product with 1 ns, of a time of two limbs.
from_columns-one :
    (l0 l1 : ℕ)
    → l0 < 2 ^ 32
    → l1 < 65536
    → value (
        from_columns
          (u64 (l0 * 65536))
          (u64 (l0 * 0 + l1 * 65536))
          (u64 (l0 * 0 + l1 * 0 + 0 * 65536))
          (u64 (l1 * 0 + 0 * 0)))
      ≡ l0 + 2 ^ 32 * l1
unfolding from_columns
from_columns-one l0 l1 h k = omega arith

-- Multiplying a time below 2 ^ 32 ns by the ratio 1.0 gives the same number.
pub uscaledns_mul_double-one :
    (t : UScaledNs) → InWidth t → value t < 2 ^ 48 → value (uscaledns_mul_double t one) ≡ value t
unfolding uscaledns_mul_double uscaledns_mul
uscaledns_mul_double-one t v h =
    let l2 : limb2 t ≡ 0 = omega arith in
    let sum : limb0 t + 2 ^ 32 * limb1 t ≡ value t = omega arith in
    rw (uscaledns_mul_double, uscaledns_double-one, uscaledns_mul, l2)
      (from_columns-one (limb0 t) (limb1 t) (omega arith) (omega arith) ∙ sum)

from_columns-InWidth : (c0 c1 c2 c3 : ℕ) → InWidth (from_columns c0 c1 c2 c3)
unfolding from_columns
from_columns-InWidth c0 c1 c2 c3 = record {
  subns_lt = omega arith;
  nsec_lt = omega arith;
  msb_lt = omega arith;
}

pub uscaledns_mul_double-InWidth : (t : UScaledNs) (r : Double) → InWidth (uscaledns_mul_double t r)
unfolding uscaledns_mul_double uscaledns_mul
uscaledns_mul_double-InWidth t r = from_columns-InWidth _ _ _ _
