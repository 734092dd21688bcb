-- ===== src/Ptp/ScaledNs.antt =====
-- `UScaledNs` and its fixed-width arithmetic (tsn_drivers/ptp_types.c). A field is a number below
-- its width; the additions and subtractions of the source that can wrap are reduced modulo it.
pub mod Value
pub mod Product
use ziggo_caa_s_switch.Prelude.{
  ℕ, ◌+◌, ◌-◌, ◌*◌, ◌/◌, ◌%◌, ◌^◌, Bool, true, false, ◌&&◌, ltb, leb, ◌==◌, if◌then◌else◌, ℤ, pos,
  negsuc, u16, u32, u64, test_bit, or_bit,
}

pub record UScaledNs : Type 0 where
  pub subns : ℕ  -- uint16_t
  pub nsec : ℕ  -- uint64_t
  pub nsec_msb : ℕ  -- uint16_t

pub record PtpMsgTimestamp : Type 0 where
  pub seconds_msb : ℕ  -- uint16_t
  pub seconds_lsb : ℕ  -- uint32_t
  pub nanoseconds : ℕ  -- uint32_t

-- The three ladders of `uscaledns_subtract`. Each returns the limb and the borrow out of it.
sub_subns : ℕ → ℕ → ℕ × ℕ
sub_subns a b = if leb b a then (a - b, 0) else (u16 (a + 65536 - b), 1)

-- `t1.nsec - borrow` wraps in 64 bits, but the first test takes the case where it would.
sub_nsec : ℕ → ℕ → ℕ → ℕ × ℕ
sub_nsec a b borrow =
    if (a == 0) && (borrow == 1)
    then (0xffff_ffff_ffff_ffff - b, 1)
    else (if leb b (a - borrow) then (a - borrow - b, 0) else (u64 (a - borrow + 2 ^ 64 - b), 1))

sub_nsec_msb : ℕ → ℕ → ℕ → ℕ
sub_nsec_msb a b borrow =
    if (a == 0) && (borrow == 1)
    then 0xffff - b
    else (if leb b (a - borrow) then a - borrow - b else u16 (a - borrow + 65536 - b))

unfoldable pub uscaledns_subtract : UScaledNs → UScaledNs → UScaledNs
unfolding sub_subns sub_nsec sub_nsec_msb
uscaledns_subtract t1 t2 =
    let (s, c) = sub_subns t1.subns t2.subns in
    let (n, c') = sub_nsec t1.nsec t2.nsec c in
    record { subns = s; nsec = n; nsec_msb = sub_nsec_msb t1.nsec_msb t2.nsec_msb c' }

check_overflow : ℕ → ℕ → ℕ → ℕ
check_overflow a b carry =
    let s = u64 (a + b + carry) in
    if carry == 0 then (if ltb s a then 1 else 0) else (if ltb a s then 0 else 1)

-- The carry out of the sub-nanoseconds is taken at `temp >= 0xFFFF`, as in the source.
unfoldable pub uscaledns_add : UScaledNs → UScaledNs → UScaledNs
unfolding check_overflow
uscaledns_add t1 t2 =
    let temp = t1.subns + t2.subns in
    let c = (if leb 0xffff temp then 1 else 0) in
    let c' = check_overflow t1.nsec t2.nsec c in
    record {
      subns = u16 temp;
      nsec = u64 (t1.nsec + t2.nsec + c);
      nsec_msb = u16 (t1.nsec_msb + t2.nsec_msb + c');
    }

-- `r.subns | 0x8000` and `r.nsec | 0x8000000000000000` set the top bit of the limb.
unfoldable pub uscaledns_divide_by_2 : UScaledNs → UScaledNs
uscaledns_divide_by_2 t = record {
  subns = (if test_bit t.nsec 0 then or_bit (t.subns / 2) 15 else t.subns / 2);
  nsec = (if test_bit t.nsec_msb 0 then or_bit (t.nsec / 2) 63 else t.nsec / 2);
  nsec_msb = t.nsec_msb / 2;
}

unfoldable pub uscaledns_compare : UScaledNs → UScaledNs → ℤ
uscaledns_compare t1 t2 =
    if ltb t2.nsec_msb t1.nsec_msb
    then pos 1
    else (if ltb t1.nsec_msb t2.nsec_msb
        then negsuc 0
        else (if ltb t2.nsec t1.nsec
            then pos 1
            else (if ltb t1.nsec t2.nsec
                then negsuc 0
                else (if ltb t2.subns t1.subns
                    then pos 1
                    else (if ltb t1.subns t2.subns then negsuc 0 else pos 0)))))

-- `t.subns | (t.nsec << 16)`: the shifted word has its low 16 bits clear, so `|` adds.
unfoldable pub uint64_uscaledns : UScaledNs → ℕ
uint64_uscaledns t = t.subns + u64 (t.nsec * 65536)

unfoldable pub uscaledns_uint64 : ℕ → UScaledNs
uscaledns_uint64 t = record { subns = t % 65536; nsec = t / 65536; nsec_msb = 0 }

unfoldable pub uscaledns_ptpmsgtimestamp : PtpMsgTimestamp → UScaledNs
uscaledns_ptpmsgtimestamp ts = record {
  subns = 0;
  nsec = u64 (ts.seconds_lsb * 1000000000 + ts.nanoseconds);
  nsec_msb = 0;
}

unfoldable pub ptpmsgtimestamp_uscaledns : UScaledNs → PtpMsgTimestamp
ptpmsgtimestamp_uscaledns t = record {
  seconds_msb = 0;
  seconds_lsb = u32 (t.nsec / 1000000000);
  nanoseconds = t.nsec % 1000000000;
}

-- The three 32-bit limbs of the operands of `uscaledns_mul`; the fourth is 0.
abbrev pub limb0 : UScaledNs → ℕ
limb0 t = t.subns + t.nsec % 65536 * 65536

abbrev pub limb1 : UScaledNs → ℕ
limb1 t = t.nsec / 65536 % 2 ^ 32

abbrev pub limb2 : UScaledNs → ℕ
limb2 t = t.nsec / 2 ^ 48 + t.nsec_msb * 65536

-- The columns `c[0]` to `c[3]` of the product, the carries between them, and the result. The
-- columns are sums in 64 bits.
unfoldable pub from_columns : ℕ → ℕ → ℕ → ℕ → UScaledNs
from_columns c0 c1 c2 c3 =
    let d1 = u64 (c1 + c0 / 2 ^ 32) in
    let d2 = u64 (c2 + d1 / 2 ^ 32) in
    let d3 = u64 (c3 + d2 / 2 ^ 32) in
    record {
      subns = c0 % 2 ^ 32 / 65536;
      nsec = u64 (d1 % 2 ^ 32 + d2 % 2 ^ 32 * 65536);
      nsec_msb = d3 % 65536;
    }

unfoldable pub uscaledns_mul : UScaledNs → UScaledNs → UScaledNs
uscaledns_mul t1 t2 =
    from_columns (u64 (limb0 t1 * limb0 t2)) (u64 (limb0 t1 * limb1 t2 + limb1 t1 * limb0 t2))
      (u64 (limb0 t1 * limb2 t2 + limb1 t1 * limb1 t2 + limb2 t1 * limb0 t2))
      (u64 (limb1 t1 * limb2 t2 + limb2 t1 * limb1 t2))
