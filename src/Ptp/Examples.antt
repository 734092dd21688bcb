-- ===== src/Ptp/Examples.antt =====
-- The theorems on times and priority vectors at concrete data.
use ziggo_caa_s_switch.Prelude.{
  ◌*◌, ℕ, ◌+◌, ◌-◌, ◌/◌, ◌%◌, ◌^◌, ◌<◌, ◌≡◌, refl, arith, ltb, ◌==◌, if◌then◌else◌, replicate,
  negative, pos, negsuc,
}
use ziggo_caa_s_switch.Ptp.ScaledNs.{
  UScaledNs, PtpMsgTimestamp, uscaledns_subtract, uscaledns_add, uscaledns_compare,
  uscaledns_ptpmsgtimestamp, ptpmsgtimestamp_uscaledns,
}
use ziggo_caa_s_switch.Ptp.ScaledNs.Value.{
  value, InWidth, value-uscaledns_subtract, value-uscaledns_add, uscaledns_compare-value,
  timestamp-roundtrip,
}
use ziggo_caa_s_switch.Ptp.ScaledNs.{uscaledns_mul}
use ziggo_caa_s_switch.Ptp.ScaledNs.Product.{whole, value-uscaledns_mul, value-uscaledns_mul_large}
use ziggo_caa_s_switch.Ptp.Doubles.{Double, uscaledns_double}
use ziggo_caa_s_switch.Ptp.Doubles.Rounding.{IsNearest, value-uscaledns_double}
use ziggo_caa_s_switch.Ptp.Priority.{
  PriorityVector, memcmp, is_zero, same_priority, superior_priority, inferior_priority,
  compare_priority_vectors, bytes,
}
use ziggo_caa_s_switch.Ptp.Priority.Order.{IsWhole}
use ziggo_caa_s_switch.Ptp.Priority.Fields.{fields, IsSmall, compare_priority_vectors-fields}

abbrev early : UScaledNs
early = record { subns = 0xfffe; nsec = 0; nsec_msb = 0 }

abbrev late : UScaledNs
late = record { subns = 1; nsec = 3; nsec_msb = 1 }

early-InWidth : InWidth early
early-InWidth = record { subns_lt = omega arith; nsec_lt = omega arith; msb_lt = omega arith }

late-InWidth : InWidth late
late-InWidth = record { subns_lt = omega arith; nsec_lt = omega arith; msb_lt = omega arith }

value-uscaledns_subtract_example :
    value (uscaledns_subtract early late) ≡ (value early + 2 ^ 96 - value late) % 2 ^ 96
value-uscaledns_subtract_example = value-uscaledns_subtract early late early-InWidth late-InWidth

value-uscaledns_add_example :
    value (uscaledns_add early late)
    ≡ (value early + value late + (if early.subns + late.subns == 0xffff then 65536 else 0))
      % 2 ^ 96
value-uscaledns_add_example = value-uscaledns_add early late early-InWidth late-InWidth

uscaledns_compare-value_example : uscaledns_compare early late ≡ (
    if ltb (value early) (value late)
    then negsuc 0
    else (if ltb (value late) (value early) then pos 1 else pos 0))
uscaledns_compare-value_example = uscaledns_compare-value early late early-InWidth late-InWidth

abbrev stamp : PtpMsgTimestamp
stamp = record { seconds_msb = 0; seconds_lsb = 1700000000; nanoseconds = 999999999 }

timestamp-roundtrip_example : ptpmsgtimestamp_uscaledns (uscaledns_ptpmsgtimestamp stamp) ≡ stamp
timestamp-roundtrip_example = timestamp-roundtrip stamp refl (omega arith) (omega arith)

-- A vector with the given first priority and steps removed.
abbrev small : ℕ → ℕ → PriorityVector
small priority1 steps = record {
  root_system_identity = record {
    priority1 = priority1;
    clock_class = 248;
    clock_accuracy = 254;
    offset_scaled_log_variance = 100;
    priority2 = 248;
    clock_identity = replicate 8 5;
  };
  steps_removed = steps;
  source_port_clock_identity = replicate 8 6;
  source_port_number = 1;
  port_number = 2;
}

small-IsWhole : (p n : ℕ) → IsWhole (small p n)
small-IsWhole p n = record { root_len = refl; source_len = refl }

small-IsSmall : (p n : ℕ) → n < 256 → IsSmall (small p n)
small-IsSmall p n h = record {
  variance_lt = omega arith;
  steps_lt = h;
  source_lt = omega arith;
  port_lt = omega arith;
}

superior : compare_priority_vectors (small 1 2) (small 1 3) ≡ superior_priority
unfolding compare_priority_vectors memcmp bytes
superior = refl

superior' : compare_priority_vectors (small 1 3) (small 2 0) ≡ superior_priority
unfolding compare_priority_vectors memcmp bytes
superior' = refl

compare_priority_vectors-fields_example : compare_priority_vectors (small 1 2) (small 2 1) ≡ (
    if negative (memcmp (fields (small 1 2)) (fields (small 2 1)))
    then superior_priority
    else (if is_zero (memcmp (fields (small 1 2)) (fields (small 2 1)))
        then same_priority
        else inferior_priority))
compare_priority_vectors-fields_example =
    compare_priority_vectors-fields (small 1 2) (small 2 1) (small-IsWhole 1 2) (small-IsWhole 2 1)
      (small-IsSmall 1 2 (omega arith)) (small-IsSmall 2 1 (omega arith))

-- 256 steps come before 1 step.

-- 3 ns and 5 ns.
value-uscaledns_mul_example :
    value (uscaledns_mul (whole 3) (whole 5)) ≡ value (whole 3) * value (whole 5) / 65536
value-uscaledns_mul_example = value-uscaledns_mul (whole 3) (whole 5) (omega arith) (omega arith)

value-uscaledns_mul_large_example :
    value (uscaledns_mul (whole (65536 * 2)) (whole (65536 * 3))) * 65536
    ≡ value (whole (65536 * 2)) * value (whole (65536 * 3)) / 65536
value-uscaledns_mul_large_example = value-uscaledns_mul_large 2 3 (omega arith) (omega arith)

-- 1.0000114440917969, three eighths of 2 ^ -15 above one.
abbrev ratio : Double
ratio = record { num = 2 ^ 18 + 3; scale = 18 }

value-uscaledns_double_example :
    IsNearest (value (uscaledns_double ratio)) (2 ^ ratio.scale) (ratio.num * 65536)
value-uscaledns_double_example = value-uscaledns_double ratio (omega arith)
