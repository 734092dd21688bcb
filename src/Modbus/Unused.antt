-- ===== src/Modbus/Unused.antt =====
-- `mapUnusedIO` (modbus.cpp), which gives every register without a variable a cell of the server's
-- own. The cells of the bit and input tables are static and start at 0; those of the holding
-- registers are below 2048 in `mb_holding_regs`, which no handler reads there, so that a cell is
-- reached through its entry only.
use ziggo_caa_s_switch.Prelude.{
  ℕ, zero, suc, ◌+◌, ◌-◌, ◌<◌, ◌≡◌, ◌≢◌, inl, inr, refl, List, [], ◌∷◌, Option, none, some, get_or,
  get_elem?, length, leb, arith, Bool-cases, true,
}
use ziggo_caa_s_switch.Modbus.Memory.{
  PlcMemory, max_coils, max_discrete_input, max_inp_regs, min_16b_range, write_holding,
}
use ziggo_caa_s_switch.Modbus.Registers.{HasSize, ReadsBack, holds, write_holding-ReadsBack}

-- A loop over `n` entries of a table, the first with the cell `cells[i]`.
unfoldable map_unused : ℕ → List (Option ℕ) → List ℕ → ℕ → List (Option ℕ)
map_unused zero table cells i = table
map_unused (suc n) [] cells i = []
map_unused (suc n) (none ∷ table) cells i =
    some (get_or cells i 0) ∷ map_unused n table cells (i + 1)
map_unused (suc n) (some v ∷ table) cells i = some v ∷ map_unused n table cells (i + 1)

unfoldable pub map_unused_io : PlcMemory → PlcMemory
unfolding map_unused
map_unused_io m = record m {
  bool_input = map_unused max_discrete_input m.bool_input [] 0;
  bool_output = map_unused max_coils m.bool_output [] 0;
  int_input = map_unused max_inp_regs m.int_input [] 0;
  int_output = map_unused min_16b_range m.int_output m.mb_holding_regs 0;
  int_memory = map_unused min_16b_range m.int_memory m.mb_holding_regs min_16b_range;
}

map_unused-mapped :
    (n : ℕ) (table : List (Option ℕ)) (cells : List ℕ) (i j : ℕ)
    → j < n
    → j < length table
    → (v : ℕ) × (get_elem? (map_unused n table cells i) j ≡ some (some v))
unfolding map_unused
map_unused-mapped zero table cells i j h k = absurd (omega arith)
map_unused-mapped (suc n) [] cells i j h k = absurd (omega arith)
map_unused-mapped (suc n) (none ∷ table) cells i zero h k = (get_or cells i 0, refl)
map_unused-mapped (suc n) (some v ∷ table) cells i zero h k = (v, refl)
map_unused-mapped (suc n) (none ∷ table) cells i (suc j) h k =
    map_unused-mapped n table cells (i + 1) j (omega arith) (omega arith)
map_unused-mapped (suc n) (some v ∷ table) cells i (suc j) h k =
    map_unused-mapped n table cells (i + 1) j (omega arith) (omega arith)

map_unused_io-holds :
    (m : PlcMemory) (p : ℕ)
    → HasSize m
    → p < 2048
    → p ≢ 1024
    → (v : ℕ) × (holds (map_unused_io m) p ≡ some (some v))
unfolding map_unused_io
map_unused_io-holds m p s h ne = elim (Bool-cases (leb p 1024)) [
  | inl low ↦
      rw low
        (map_unused-mapped 1024 m.int_output m.mb_holding_regs 0 p (ground arith) (ground arith))
  | inr high ↦
      let mid : leb p 2047 ≡ true = ground arith in
      rw (high, mid)
        (map_unused-mapped 1024 m.int_memory m.mb_holding_regs 1024 (p - 1024) (ground arith)
          (ground arith))
]

-- After `mapUnusedIO`, over tables of 1024 entries each, every 16-bit register but 1024 takes a word
-- and reads back as it, whether it had a variable or not.
pub map_unused_io-ReadsBack :
    (m : PlcMemory) (p w : ℕ)
    → HasSize m
    → p < 2048
    → p ≢ 1024
    → w < 65536
    → ReadsBack p w (write_holding (map_unused_io m) p w)
map_unused_io-ReadsBack m p w s h ne k =
    let (v, e) = map_unused_io-holds m p s h ne in
    write_holding-ReadsBack (map_unused_io m) p w v e k
