-- ===== src/Modbus/Coils.antt =====
-- What the row of `ReadCoils` and `ReadDiscreteInputs` computes (modbus.cpp).
use ziggo_caa_s_switch.Prelude.{
  ℕ, zero, suc, ◌+◌, ◌*◌, ◌%◌, ◌^◌, ◌<◌, ◌≡◌, ◌∙◌, ap, refl, Bool, arith, Option, none, List,
  get_or, lt→ltb,
}
use ziggo_caa_s_switch.Modbus.Bits.{bit_write, bit_value, bit_of, read_row, packed, bit_write-mod}

-- The first `j` entries from `start` on as a number, the first at the low end.
unfoldable packed_below : List (Option ℕ) → ℕ → ℕ → ℕ
packed_below table start zero = 0
packed_below table start (suc j) = packed_below table start j + 2 ^ j * bit_of table (start + j)

module _ (table : List (Option ℕ)) (limit start : ℕ) (error : Bool) where
  read_row-valid :
      (n j byte : ℕ)
      → n + j ≡ 8
      → start + 7 < limit
      → byte < 256
      → byte % 2 ^ j ≡ packed_below table start j
      → read_row table limit start n j byte error ≡ (packed_below table start 8, error)
  unfolding read_row packed_below
  read_row-valid zero j byte h k b e = let at : j ≡ 8 = omega arith in ground (arith, rw (at) at e)
  read_row-valid (suc n) j byte h k b e =
      let v = bit_value (get_or table (start + j) none) in
      let (b', e') = bit_write-mod byte j v (omega arith) b in
      let next : suc j ≡ j + 1 = omega arith in
      let below : bit_write byte j v % 2 ^ (j + 1) ≡ packed_below table start (j + 1) =
        e'
        ∙ ap (λ u. u + 2 ^ j * bit_of table (start + j)) e
        ∙ ap (packed_below table start) next in
      rw (lt→ltb (start + j) limit (omega arith))
        (read_row-valid n (j + 1) (bit_write byte j v) (omega arith) k b' below)

  -- With eight valid addresses, a row reads the eight entries as the bits of the byte, whatever the byte
  -- held before, and finds no error.
  pub read_row-packed :
      (byte : ℕ)
      → start + 7 < limit
      → byte < 256
      → read_row table limit start 8 0 byte error ≡ (packed table start, error)
  unfolding packed_below
  read_row-packed byte k b =
      read_row-valid 8 0 byte refl k b (ground arith) ∙ ap (λ u. (u, error)) (omega arith)
