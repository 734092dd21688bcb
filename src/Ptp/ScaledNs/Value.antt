-- ===== src/Ptp/ScaledNs/Value.antt =====
-- `UScaledNs` arithmetic against the 96-bit number of 2^-16 ns that the three limbs stand for.
use ziggo_caa_s_switch.Prelude.{
  ℕ, ◌+◌, ◌-◌, ◌*◌, ◌/◌, ◌%◌, ◌^◌, ◌≤◌, ◌<◌, ◌≡◌, ◌⊎◌, arith, ltb, ◌==◌, if◌then◌else◌, pos, negsuc,
}
use ziggo_caa_s_switch.Ptp.ScaledNs.{
  UScaledNs, PtpMsgTimestamp, sub_subns, sub_nsec, sub_nsec_msb, uscaledns_subtract, uscaledns_add,
  uscaledns_divide_by_2, uscaledns_compare, uint64_uscaledns, uscaledns_uint64,
  uscaledns_ptpmsgtimestamp, ptpmsgtimestamp_uscaledns,
}

-- Each limb fits its field.
pub record InWidth (t : UScaledNs) : Type 0 where
  pub subns_lt : t.subns < 65536
  pub nsec_lt : t.nsec < 2 ^ 64
  pub msb_lt : t.nsec_msb < 65536

abbrev pub value : UScaledNs → ℕ
value t = t.subns + 65536 * t.nsec + 2 ^ 80 * t.nsec_msb

pub uscaledns_subtract-InWidth :
    (t1 t2 : UScaledNs) → InWidth t1 → InWidth t2 → InWidth (uscaledns_subtract t1 t2)
unfolding uscaledns_subtract
uscaledns_subtract-InWidth t1 t2 v1 v2 = ground arith

-- The limbs of the difference, each with the borrow that it hands on.
sub_subns_limb :
    (a b : ℕ)
    → a < 65536
    → b < 65536
    → ((sub_subns a b).0 + b ≡ a + 65536 * (sub_subns a b).1) × ((sub_subns a b).1 ≤ 1)
unfolding sub_subns
sub_subns_limb a b ha hb = ground arith

sub_nsec_limb :
    (a b borrow : ℕ)
    → a < 2 ^ 64
    → b < 2 ^ 64
    → borrow ≤ 1
    → ((sub_nsec a b borrow).0 + b + borrow ≡ a + 2 ^ 64 * (sub_nsec a b borrow).1)
      × ((sub_nsec a b borrow).1 ≤ 1)
unfolding sub_nsec
sub_nsec_limb a b borrow ha hb h = ground arith

sub_nsec_msb_limb :
    (a b borrow : ℕ)
    → a < 65536
    → b < 65536
    → borrow ≤ 1
    → (sub_nsec_msb a b borrow + b + borrow ≡ a)
      ⊎ (sub_nsec_msb a b borrow + b + borrow ≡ a + 65536)
unfolding sub_nsec_msb
sub_nsec_msb_limb a b borrow ha hb h = ground arith

-- `uscaledns_subtract` is subtraction modulo 2 ^ 96 on operands whose limbs fit their fields.
pub value-uscaledns_subtract :
    (t1 t2 : UScaledNs)
    → InWidth t1
    → InWidth t2
    → value (uscaledns_subtract t1 t2) ≡ (value t1 + 2 ^ 96 - value t2) % 2 ^ 96
value-uscaledns_subtract t1 t2 v1 v2 =
    let (s, c) = sub_subns t1.subns t2.subns in
    let l1 = sub_subns_limb t1.subns t2.subns v1.subns_lt v2.subns_lt in
    let l2 = sub_nsec_limb t1.nsec t2.nsec c v1.nsec_lt v2.nsec_lt l1.1 in
    let w = uscaledns_subtract-InWidth t1 t2 v1 v2 in
    let l3 =
      sub_nsec_msb_limb t1.nsec_msb t2.nsec_msb (sub_nsec t1.nsec t2.nsec c).1 v1.msb_lt v2.msb_lt
        l2.1 in
    unfold uscaledns_subtract in omega (arith, l1, l2, l3, w)

-- `uscaledns_add` is addition modulo 2 ^ 96 on operands whose limbs fit their fields, and one
-- nanosecond too much exactly where the sub-nanoseconds add up to 0xffff.
pub value-uscaledns_add :
    (t1 t2 : UScaledNs)
    → InWidth t1
    → InWidth t2
    → value (uscaledns_add t1 t2)
      ≡ (value t1 + value t2 + (if t1.subns + t2.subns == 0xffff then 65536 else 0)) % 2 ^ 96
unfolding uscaledns_add
value-uscaledns_add t1 t2 v1 v2 = ground arith

-- `uscaledns_divide_by_2` halves the number, rounding down.
pub value-uscaledns_divide_by_2 :
    (t : UScaledNs) → InWidth t → value (uscaledns_divide_by_2 t) ≡ value t / 2
unfolding uscaledns_divide_by_2
value-uscaledns_divide_by_2 t v = ground arith

-- `uscaledns_compare` compares the numbers: -1, 0 or 1 as the first is less, equal or greater.
pub uscaledns_compare-value :
    (t1 t2 : UScaledNs)
    → InWidth t1
    → InWidth t2
    → uscaledns_compare t1 t2 ≡ (
        if ltb (value t1) (value t2)
        then negsuc 0
        else (if ltb (value t2) (value t1) then pos 1 else pos 0))
unfolding uscaledns_compare
uscaledns_compare-value t1 t2 v1 v2 = ground arith

-- A 64-bit number of 2 ^ -16 ns comes back from its conversion to `UScaledNs`.
pub uint64-roundtrip : (n : ℕ) → n < 2 ^ 64 → uint64_uscaledns (uscaledns_uint64 n) ≡ n
unfolding uint64_uscaledns uscaledns_uint64
uint64-roundtrip n h = omega arith

-- A timestamp whose seconds fit 32 bits, with less than 10 ^ 9 nanoseconds, comes back from its
-- conversion to `UScaledNs`.
pub timestamp-roundtrip :
    (ts : PtpMsgTimestamp)
    → ts.seconds_msb ≡ 0
    → ts.seconds_lsb < 2 ^ 32
    → ts.nanoseconds < 1000000000
    → ptpmsgtimestamp_uscaledns (uscaledns_ptpmsgtimestamp ts) ≡ ts
unfolding ptpmsgtimestamp_uscaledns uscaledns_ptpmsgtimestamp
timestamp-roundtrip ts h0 h1 h2 = ground arith
