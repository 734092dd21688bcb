-- ===== src/Pdelay/Request/PropTime.antt =====
-- What `computePropTime` computes at the rate ratio 1.0 (time_sync/md_pdelay_req_sm.c).
use ziggo_caa_s_switch.Prelude.{
  ℕ, ◌+◌, ◌-◌, ◌/◌, ◌%◌, ◌^◌, ◌<◌, ◌≡◌, ◌∙◌, refl, Bool, true, false, ◌||◌, Option, none, some, ltb,
  if◌then◌else◌, negative, arith, inl, inr, Bool-cases,
}
use ziggo_caa_s_switch.Ptp.ScaledNs.{UScaledNs, uscaledns_subtract, uscaledns_compare}
use ziggo_caa_s_switch.Ptp.ScaledNs.Value.{
  InWidth, value, uscaledns_subtract-InWidth, value-uscaledns_subtract, uscaledns_compare-value,
  value-uscaledns_divide_by_2,
}
use ziggo_caa_s_switch.Ptp.Doubles.{one, uscaledns_mul_double}
use ziggo_caa_s_switch.Ptp.Doubles.Rounding.{uscaledns_mul_double-one, uscaledns_mul_double-InWidth}
use ziggo_caa_s_switch.Pdelay.Request.{MdPdelayReqSm, compute_prop_time}

-- Half of what is left of the time from the request to its response, without the time that the
-- response took at the neighbour; or none, where one of these times is negative.
abbrev pub mean_delay : ℕ → ℕ → ℕ → ℕ → Option ℕ
mean_delay t1 t2 t3 t4 =
    if ltb t4 t1 || ltb t3 t2 || ltb (t4 - t1) (t3 - t2)
    then none
    else some ((t4 - t1 - (t3 - t2)) / 2)

abbrev pub map_value : Option UScaledNs → Option ℕ
map_value none = none
map_value (some t) = some (value t)

negative-compare :
    (a b : UScaledNs)
    → InWidth a
    → InWidth b
    → negative (uscaledns_compare a b) ≡ ltb (value a) (value b)
negative-compare a b v w = rw (uscaledns_compare-value a b v w) (ground arith)

map_value-if :
    (b : Bool) (t : UScaledNs)
    → map_value (if b then none else some t) ≡ (if b then none else some (value t))
map_value-if true t = refl
map_value-if false t = refl

by_cases :
    (t1 t2 t3 t4 x y : ℕ)
    → ltb t4 t1 ≡ false
    → t4 - t1 < 2 ^ 48
    → t2 < 2 ^ 80
    → t3 < 2 ^ 80
    → x ≡ t4 - t1
    → y ≡ (t3 + 2 ^ 96 - t2) % 2 ^ 96
    → (if ltb x y then none else some ((x + 2 ^ 96 - y) % 2 ^ 96 / 2))
      ≡ (if ltb t3 t2 || ltb (t4 - t1) (t3 - t2) then none else some ((t4 - t1 - (t3 - t2)) / 2))
by_cases t1 t2 t3 t4 x y e h h2 h3 ex ey = elim (Bool-cases (ltb t3 t2)) [
  | inl n ↦ ground arith
  | inr n ↦ ground arith
]

-- Each time stamp fits its fields, and those of the neighbour have no `nsec_msb`.
pub record Stamped (t1 t2 t3 t4 : UScaledNs) : Type 0 where
  pub fits1 : InWidth t1
  pub fits2 : InWidth t2
  pub fits3 : InWidth t3
  pub fits4 : InWidth t4
  pub no_msb2 : t2.nsec_msb ≡ 0
  pub no_msb3 : t3.nsec_msb ≡ 0
  pub within : value t4 - value t1 < 2 ^ 48

-- At the ratio 1.0 `computePropTime` computes the mean delay of the numbers, and exits the process
-- where there is none. The response comes within 2 ^ 32 ns of the request.
pub compute_prop_time-mean_delay :
    (sm : MdPdelayReqSm)
    → Stamped sm.t1 sm.t2 sm.t3 sm.t4
    → sm.port.neighbor_rate_ratio ≡ one
    → map_value (compute_prop_time sm)
      ≡ mean_delay (value sm.t1) (value sm.t2) (value sm.t3) (value sm.t4)
unfolding compute_prop_time
compute_prop_time-mean_delay sm v e =
    let d = uscaledns_subtract sm.t4 sm.t1 in
    let p = uscaledns_subtract sm.t3 sm.t2 in
    let r = uscaledns_mul_double d one in
    let wd = uscaledns_subtract-InWidth sm.t4 sm.t1 v.fits4 v.fits1 in
    let wp = uscaledns_subtract-InWidth sm.t3 sm.t2 v.fits3 v.fits2 in
    let wr = uscaledns_mul_double-InWidth d one in
    let vd = value-uscaledns_subtract sm.t4 sm.t1 v.fits4 v.fits1 in
    let vp = value-uscaledns_subtract sm.t3 sm.t2 v.fits3 v.fits2 in
    let vh = value-uscaledns_subtract r p wr wp in
    let half =
      value-uscaledns_divide_by_2 (uscaledns_subtract r p) (uscaledns_subtract-InWidth r p wr wp) in
    let c1 = negative-compare sm.t4 sm.t1 v.fits4 v.fits1 in
    let c2 = negative-compare r p wr wp in
    elim (Bool-cases (ltb (value sm.t4) (value sm.t1))) [
      | inl early ↦ rw (e, compute_prop_time) (rw (c1, early) refl)
      | inr later ↦
          let vr = uscaledns_mul_double-one d wd (ground arith) in
          let x : value r ≡ value sm.t4 - value sm.t1 = ground arith in
          rw (e, compute_prop_time)
            (rw (c1, later)
              (map_value-if (negative (uscaledns_compare r p)) _
                ∙ rw (c2, half, vh)
                    (by_cases (value sm.t1) (value sm.t2) (value sm.t3) (value sm.t4) (value r)
                      (value p) later v.within (ground arith) (ground arith) x vp)))
    ]
