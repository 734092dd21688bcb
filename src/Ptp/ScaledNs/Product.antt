-- ===== src/Ptp/ScaledNs/Product.antt =====
-- `uscaledns_mul` (tsn_drivers/ptp_types.c) against the product of the numbers. The result stands for
-- the product over 2 ^ 16, as both operands count units of 2 ^ -16 ns.
use native.Mathlib.Nat.{mul-le-mul}
use ziggo_caa_s_switch.Prelude.{ℕ, ◌+◌, ◌*◌, ◌/◌, ◌^◌, ◌≤◌, ◌<◌, ◌≡◌, arith, u64}
use ziggo_caa_s_switch.Ptp.ScaledNs.{UScaledNs, limb0, limb1, limb2, from_columns, uscaledns_mul}
use ziggo_caa_s_switch.Ptp.ScaledNs.Value.{value}

-- One column that fits 64 bits is the product in units of 2 ^ -32 ns.
from_columns-low :
    (x y : ℕ)
    → x * y < 2 ^ 64
    → value (
        from_columns
          (u64 (x * y))
          (u64 (x * 0 + 0 * y))
          (u64 (x * 0 + 0 * 0 + 0 * y))
          (u64 (0 * 0 + 0 * 0)))
      ≡ x * y / 65536
unfolding from_columns
from_columns-low x y h = omega arith

-- The column of 2 ^ 32 ns lands 16 bits too low.
from_columns-high :
    (x y : ℕ)
    → x * y < 2 ^ 32
    → value (
        from_columns
          (u64 (0 * 0))
          (u64 (0 * y + x * 0))
          (u64 (0 * 0 + x * y + 0 * 0))
          (u64 (x * 0 + 0 * y)))
      ≡ x * y * 2 ^ 32
unfolding from_columns
from_columns-high x y h = omega arith

-- Operands below 2 ^ 32 units, that is 65536 ns, are multiplied exactly, rounding down.
pub value-uscaledns_mul :
    (t1 t2 : UScaledNs)
    → value t1 < 2 ^ 32
    → value t2 < 2 ^ 32
    → value (uscaledns_mul t1 t2) ≡ value t1 * value t2 / 65536
unfolding uscaledns_mul
value-uscaledns_mul t1 t2 h k =
    let a0 : limb0 t1 ≡ value t1 = omega arith in
    let a1 : limb1 t1 ≡ 0 = omega arith in
    let a2 : limb2 t1 ≡ 0 = omega arith in
    let b0 : limb0 t2 ≡ value t2 = omega arith in
    let b1 : limb1 t2 ≡ 0 = omega arith in
    let b2 : limb2 t2 ≡ 0 = omega arith in
    let x : value t1 ≤ 0xffff_ffff = omega arith in
    let y : value t2 ≤ 0xffff_ffff = omega arith in
    let le : value t1 * value t2 ≤ 0xffff_ffff * 0xffff_ffff = mul-le-mul x y in
    rw (uscaledns_mul, a0, a1, a2, b0, b1, b2)
      (from_columns-low (value t1) (value t2) (omega arith))

abbrev pub whole : ℕ → UScaledNs
whole n = record { subns = 0; nsec = n; nsec_msb = 0 }

-- Two multiples of 65536 ns, below 2 ^ 32 ns, have a product that is 2 ^ 16 times too small.
pub value-uscaledns_mul_large :
    (j k : ℕ)
    → j < 65536
    → k < 65536
    → value (uscaledns_mul (whole (65536 * j)) (whole (65536 * k))) * 65536
      ≡ value (whole (65536 * j)) * value (whole (65536 * k)) / 65536
unfolding uscaledns_mul
value-uscaledns_mul_large j k h h' =
    let a0 : limb0 (whole (65536 * j)) ≡ 0 = omega arith in
    let a1 : limb1 (whole (65536 * j)) ≡ j = omega arith in
    let a2 : limb2 (whole (65536 * j)) ≡ 0 = omega arith in
    let b0 : limb0 (whole (65536 * k)) ≡ 0 = omega arith in
    let b1 : limb1 (whole (65536 * k)) ≡ k = omega arith in
    let b2 : limb2 (whole (65536 * k)) ≡ 0 = omega arith in
    let x : j ≤ 65535 = omega arith in
    let y : k ≤ 65535 = omega arith in
    let le : j * k ≤ 65535 * 65535 = mul-le-mul x y in
    let product : value (whole (65536 * j)) * value (whole (65536 * k)) ≡ 2 ^ 64 * (j * k) =
      omega arith in
    let mul : value (uscaledns_mul (whole (65536 * j)) (whole (65536 * k))) ≡ j * k * 2 ^ 32 =
      rw (uscaledns_mul, a0, a1, a2, b0, b1, b2) (from_columns-high j k (omega arith)) in
    omega (arith, product, mul)
