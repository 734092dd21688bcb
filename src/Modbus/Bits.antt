-- ===== src/Modbus/Bits.antt =====
-- `bitWrite` on a byte, eight times over: the row of `ReadCoils` and `ReadDiscreteInputs`
-- (modbus.cpp).
use ziggo_caa_s_switch.Prelude.{
  ℕ, zero, suc, ◌+◌, ◌*◌, ◌%◌, ◌^◌, ◌<◌, ◌≡◌, Bool, true, List, Option, none, some, ltb, ◌==◌,
  if◌then◌else◌, get_or, or_bit, clear_bit, arith,
}

-- `bitWrite(value, bit, bitvalue)`.
abbrev pub bit_write : ℕ → ℕ → ℕ → ℕ
bit_write byte j v = if v == 0 then clear_bit byte j else or_bit byte j

-- The value of a bit entry; NULL reads as 0.
abbrev pub bit_value : Option ℕ → ℕ
bit_value none = 0
bit_value (some v) = v

-- Truth of an entry as 0 or 1.
abbrev pub bit_of : List (Option ℕ) → ℕ → ℕ
bit_of table p = if bit_value (get_or table p none) == 0 then 0 else 1

-- The inner loop from round `j` on, with `n` rounds left: the byte, and whether an address was
-- invalid.
unfoldable pub read_row : List (Option ℕ) → ℕ → ℕ → ℕ → ℕ → ℕ → Bool → ℕ × Bool
read_row table limit start zero j byte error = (byte, error)
read_row table limit start (suc n) j byte error =
    let valid = ltb (start + j) limit in
    read_row table limit start n (j + 1)
      (if valid then bit_write byte j (bit_value (get_or table (start + j) none)) else byte)
      (if valid then error else true)

-- A written bit is the bit, and the bits below it stay.
pub bit_write-mod :
    (byte j v : ℕ)
    → j < 8
    → byte < 256
    → (bit_write byte j v < 256)
      × (bit_write byte j v % 2 ^ (j + 1) ≡ byte % 2 ^ j + 2 ^ j * (if v == 0 then 0 else 1))
bit_write-mod byte zero v h k = ground arith
bit_write-mod byte (suc zero) v h k = ground arith
bit_write-mod byte (suc (suc zero)) v h k = ground arith
bit_write-mod byte (suc (suc (suc zero))) v h k = ground arith
bit_write-mod byte (suc (suc (suc (suc zero)))) v h k = ground arith
bit_write-mod byte (suc (suc (suc (suc (suc zero))))) v h k = ground arith
bit_write-mod byte (suc (suc (suc (suc (suc (suc zero)))))) v h k = ground arith
bit_write-mod byte (suc (suc (suc (suc (suc (suc (suc zero))))))) v h k = ground arith
bit_write-mod byte (suc (suc (suc (suc (suc (suc (suc (suc j)))))))) v h k = absurd (omega arith)

-- The byte whose bit `i` is the entry at `start + i`.
abbrev pub packed : List (Option ℕ) → ℕ → ℕ
packed table start = b 0 + 2 * b 1 + 4 * b 2 + 8 * b 3 + 16 * b 4 + 32 * b 5 + 64 * b 6 + 128 * b 7
  where
    b : ℕ → ℕ
    b i = bit_of table (start + i)
