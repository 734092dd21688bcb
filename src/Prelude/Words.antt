-- ===== src/Prelude/Words.antt =====
-- Machine words as native numbers: the moduli, and single-bit masks.
use Prim.Native.Nat.{ℕ, ◌+◌, ◌-◌, ◌/◌, ◌%◌, ◌^◌}
use mathlib.Core.Bool.{Bool, not}
use ziggo_caa_s_switch.Prelude.Tests.{◌==◌, if◌then◌else◌}

abbrev pub u8 : ℕ → ℕ
u8 n = n % 256

abbrev pub u16 : ℕ → ℕ
u16 n = n % 65536

abbrev pub u32 : ℕ → ℕ
u32 n = n % 4294967296

abbrev pub u64 : ℕ → ℕ
u64 n = n % 18446744073709551616

-- `x & (1 << k)` as a truth value.
abbrev pub test_bit : ℕ → ℕ → Bool
test_bit x k = not ((x / 2 ^ k) % 2 == 0)

-- `x | (1 << k)`: adds the bit where it is not set yet.
abbrev pub or_bit : ℕ → ℕ → ℕ
or_bit x k = if test_bit x k then x else x + 2 ^ k

-- `x & ~(1 << k)`: takes the bit away where it is set.
abbrev pub clear_bit : ℕ → ℕ → ℕ
clear_bit x k = if test_bit x k then x - 2 ^ k else x
