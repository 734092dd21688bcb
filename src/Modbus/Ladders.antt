-- ===== src/Modbus/Ladders.antt =====
-- The two ladders by which modbus.cpp writes holding registers: that of `WriteMultipleRegisters`
-- against that of `WriteRegister`.
use ziggo_caa_s_switch.Prelude.{
  ℕ, ◌-◌, ◌/◌, ◌%◌, ◌≤◌, ◌≡◌, ◌⊎◌, inl, inr, arith, Option, some, List, get_elem?,
}
use ziggo_caa_s_switch.Modbus.Memory.{PlcMemory, write_holding}
use ziggo_caa_s_switch.Modbus.WriteMultiple.{write_one, write_dint}

-- The entry points to a variable.
abbrev pub IsMapped : List (Option ℕ) → ℕ → Type 0
IsMapped table i = (v : ℕ) × (get_elem? table i ≡ some (some v))

-- The request from the register `start` on writes the register `p` as intended: in the 16-bit
-- ranges; in the 32-bit range when it starts there and the variables of both registers exist; in
-- the 64-bit range when it starts there, the variable exists, and `p` is the first word of it or at
-- the same word as the start.
abbrev pub IsPlain : PlcMemory → ℕ → ℕ → Type 0
IsPlain m start p =
    (p ≤ 2047)
    ⊎ ((2048 ≤ start)
        × (2048 ≤ p)
        × (p ≤ 4095)
        × IsMapped m.dint_memory ((start - 2048) / 2)
        × IsMapped m.dint_memory ((p - 2048) / 2))
    ⊎ ((4096 ≤ start)
        × (4096 ≤ p)
        × IsMapped m.lint_memory ((p - 4096) / 4)
        × (((p - 4096) % 4 ≡ 0) ⊎ ((p - 4096) % 4 ≡ (start - 4096) % 4)))

module _ (m : PlcMemory) (start count p w : ℕ) where
  write_one-low : p ≤ 2047 → write_one m start count p w ≡ write_holding m p w
  unfolding write_one write_holding
  write_one-low h = ground arith

  write_one-dint :
      2048 ≤ start
      → 2048 ≤ p
      → p ≤ 4095
      → IsMapped m.dint_memory ((start - 2048) / 2)
      → IsMapped m.dint_memory ((p - 2048) / 2)
      → write_one m start count p w ≡ write_holding m p w
  unfolding write_one write_holding write_dint
  write_one-dint a b c (v, e) (u, f) = ground arith

  write_one-lint :
      4096 ≤ start
      → 4096 ≤ p
      → IsMapped m.lint_memory ((p - 4096) / 4)
      → ((p - 4096) % 4 ≡ 0) ⊎ ((p - 4096) % 4 ≡ (start - 4096) % 4)
      → write_one m start count p w ≡ write_holding m p w
  unfolding write_one write_holding
  write_one-lint a b (v, e) f = ground arith

  -- A round of `WriteMultipleRegisters` at the register `p`, of a request from the register `start` on,
  -- does what `WriteRegister` does at `p`: for `p` up to 2047; for `p` from 2048 to 4095, if the
  -- request starts at 2048 or later and the 32-bit variables of `start` and of `p` exist; and for `p`
  -- and `start` from 4096 on, if the 64-bit variable of `p` exists and `p` is its first word or at the
  -- same word as `start` is of its own.
  pub write_one-write_holding :
      IsPlain m start p → write_one m start count p w ≡ write_holding m p w
  write_one-write_holding (inl h) = write_one-low h
  write_one-write_holding (inr (inl (a, b, c, d, e))) = write_one-dint a b c d e
  write_one-write_holding (inr (inr (a, b, c, d))) = write_one-lint a b c d
