-- ===== src/Ptp/Quotient.antt =====
-- `compare_array` and `uscaledns_div` (tsn_drivers/ptp_types.c). `none` is a call that does not return:
-- the loop that doubles the divisor does not end, or an assertion fails. A double is its fraction, a
-- sum of two rounded to 53 bits.
pub mod Arrays
pub mod Returns
mod Examples
use ziggo_caa_s_switch.Prelude.{
  ℕ, zero, suc, ◌+◌, ◌-◌, ◌*◌, ◌/◌, ◌%◌, ◌^◌, Bool, true, false, not, ◌&&◌, ◌||◌, Option, none,
  some, ltb, ◌==◌, if◌then◌else◌, ℤ, pos, negsuc, negative, nonpos, u16, u64,
}
use ziggo_caa_s_switch.Ptp.ScaledNs.{UScaledNs}
use ziggo_caa_s_switch.Ptp.Doubles.{Double}

-- `uint64_t a[4]`, of 32 bits each.
pub record Limbs : Type 0 where
  pub l0 : ℕ
  pub l1 : ℕ
  pub l2 : ℕ
  pub l3 : ℕ

-- The fields have 16, 64 and 16 bits.
unfoldable pub limbs : UScaledNs → Limbs
limbs t = record {
  l0 = u16 t.subns + t.nsec % 2 ^ 16 * 2 ^ 16;
  l1 = t.nsec / 2 ^ 16 % 2 ^ 32;
  l2 = u64 t.nsec / 2 ^ 48 + u16 t.nsec_msb * 2 ^ 16;
  l3 = 0;
}

abbrev by_limb : ℕ → ℕ → ℤ → ℤ
by_limb x y below = if x == y then below else (if ltb x y then negsuc 0 else pos 1)

unfoldable pub compare_array : Limbs → Limbs → ℤ
compare_array a b =
    by_limb a.l3 b.l3 (by_limb a.l2 b.l2 (by_limb a.l1 b.l1 (by_limb a.l0 b.l0 (pos 0))))

-- The loop that doubles an array, and its last carry.
unfoldable pub double_array : Limbs → Limbs × ℕ
double_array a = (
  record {
    l0 = a.l0 * 2 % 2 ^ 32;
    l1 = (a.l1 * 2 + a.l0 / 2 ^ 31) % 2 ^ 32;
    l2 = (a.l2 * 2 + a.l1 / 2 ^ 31) % 2 ^ 32;
    l3 = (a.l3 * 2 + a.l2 / 2 ^ 31) % 2 ^ 32;
  },
  a.l3 / 2 ^ 31,
)

abbrev borrow : ℕ → ℕ → ℕ → ℕ
borrow x y carry = if ltb x (y + carry) then 1 else 0

-- The loop that takes `b` off `a`, and its last borrow.
unfoldable pub subtract_array : Limbs → Limbs → Limbs × ℕ
subtract_array a b =
    let c0 = borrow a.l0 b.l0 0 in
    let c1 = borrow a.l1 b.l1 c0 in
    let c2 = borrow a.l2 b.l2 c1 in
    let c3 = borrow a.l3 b.l3 c2 in
    (
      record {
        l0 = a.l0 + c0 * 2 ^ 32 - b.l0;
        l1 = a.l1 + c1 * 2 ^ 32 - b.l1 - c0;
        l2 = a.l2 + c2 * 2 ^ 32 - b.l2 - c1;
        l3 = a.l3 + c3 * 2 ^ 32 - b.l3 - c2;
      },
      c3,
    )

-- The `while` loop: the divisor and the number of doublings. The fuel counts its tests.
unfoldable pub scale_loop : ℕ → Limbs → Limbs → ℕ → Option (Limbs × ℕ)
scale_loop zero a b k = none
scale_loop (suc fuel) a b k = elim (nonpos (compare_array a b)) [
  | true ↦ some (b, k)
  | false ↦
      let (b', carry) = double_array b in
      elim (carry == 0) [ true ↦ scale_loop fuel a b' (k + 1) | false ↦ none ]
]

-- The low bits that a double of 53 bits has no room for.
unfoldable pub excess : ℕ → ℕ → ℕ
excess zero n = 0
excess (suc fuel) n = let rest = excess fuel (n / 2) in if ltb n (2 ^ 53) then 0 else suc rest

-- The double next to `n`, to even where there are two.
unfoldable pub nearest : ℕ → ℕ
nearest n =
    let unit = 2 ^ excess 128 n in
    let q = n / unit in
    let rest = n % unit * 2 in
    if ltb unit rest || ((rest == unit) && (q % 2 == 1)) then (q + 1) * unit else q * unit

-- The `for` loop, for `i` from below the first argument down to 0; `r` counts units of 2 ^ -32.
unfoldable pub divide_loop : ℕ → Limbs → Limbs → ℕ → Option Double
divide_loop zero a b r = some (record { num = r; scale = 32 })
divide_loop (suc i) a b r =
    let (a', carry) = double_array a in
    elim (carry == 0) [
      | false ↦ none
      | true ↦ elim (negative (compare_array a' b)) [
        | true ↦ divide_loop i a' b r
        | false ↦
            let (a'', last) = subtract_array a' b in
            let r' = nearest (r + 2 ^ i) in
            elim (last == 0) [
              | false ↦ none
              | true ↦ elim (nonpos (compare_array a' b)) [
                | true ↦ some (record { num = r'; scale = 32 })
                | false ↦ divide_loop i a'' b r'
              ]
            ]
      ]
    ]

abbrev pub scale_fuel : ℕ
scale_fuel = 97

unfoldable pub uscaledns_div : UScaledNs → UScaledNs → Option Double
uscaledns_div t1 t2 =
    let a = limbs t1 in
    elim (scale_loop scale_fuel a (limbs t2) 0) [
      | none ↦ none
      | some (b, k) ↦ elim (negative (compare_array a b)) [
        | false ↦ some (record { num = 2 ^ k; scale = 0 })
        | true ↦ divide_loop (k + 32) a b 0
      ]
    ]
