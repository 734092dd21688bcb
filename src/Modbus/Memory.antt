-- ===== src/Modbus/Memory.antt =====
-- The image tables of the PLC and one access to them (modbus.cpp). A table of pointers is a list: an
-- entry is `none` for NULL and the value pointed to otherwise; distinct entries point to distinct
-- variables, as `glueVars` and `mapUnusedIO` set them up. `bool_output[p / 8][p % 8]` is entry `p`.
-- Unsigned fields hold the bit patterns of the signed IEC types. An index past the end of a table
-- of 1024 entries is undefined behaviour.
use ziggo_caa_s_switch.Prelude.{
  ℕ, ◌+◌, ◌-◌, ◌*◌, ◌/◌, ◌%◌, ◌^◌, List, Option, none, some, leb, ◌==◌, if◌then◌else◌, get_or,
  get_elem?, set,
}

abbrev pub buffer_size : ℕ
buffer_size = 1024

abbrev pub max_coils : ℕ
max_coils = 8192

abbrev pub max_discrete_input : ℕ
max_discrete_input = 8192

abbrev pub max_inp_regs : ℕ
max_inp_regs = 1024

abbrev pub min_16b_range : ℕ
min_16b_range = 1024

abbrev pub max_16b_range : ℕ
max_16b_range = 2047

abbrev pub min_32b_range : ℕ
min_32b_range = 2048

abbrev pub max_32b_range : ℕ
max_32b_range = 4095

abbrev pub min_64b_range : ℕ
min_64b_range = 4096

abbrev pub max_64b_range : ℕ
max_64b_range = 8191

pub record PlcMemory : Type 0 where
  pub bool_input : List (Option ℕ)
  pub bool_output : List (Option ℕ)
  pub int_input : List (Option ℕ)
  pub int_output : List (Option ℕ)
  pub int_memory : List (Option ℕ)
  pub dint_memory : List (Option ℕ)
  pub lint_memory : List (Option ℕ)
  pub mb_holding_regs : List ℕ

-- The outcome of an access by register number.
pub data Access (A : Type 0) : Type 0 where
  ok : A → Access A
  illegal_address : Access A
  out_of_bounds : Access A

-- `*table[i]`, or `other` for NULL.
abbrev pub read_entry {ℓ} : {A : Type ℓ} → List (Option ℕ) → ℕ → A → (ℕ → A) → Option A
read_entry table i other f = elim (get_elem? table i) [
  | none ↦ none
  | some none ↦ some other
  | some (some v) ↦ some (f v)
]

abbrev pub in_bounds : {A : Type 0} → Option A → Access A
in_bounds none = out_of_bounds
in_bounds (some a) = ok a

-- The two bytes `highByte(w)`, `lowByte(w)` of a 16-bit word.
abbrev pub word_bytes : ℕ → ℕ × ℕ
word_bytes w = (w / 256 % 256, w % 256)

-- The 16 bits of `v` from bit `k` on.
abbrev pub word_at : ℕ → ℕ → ℕ
word_at v k = v / 2 ^ k % 65536

-- `(v & ~(0xffff << k)) | (w << k)`.
abbrev pub put_word : ℕ → ℕ → ℕ → ℕ
put_word v k w = v - word_at v k * 2 ^ k + w * 2 ^ k

-- The word of a 64-bit register by the position in it: the first is the most significant.
abbrev pub shift_of : ℕ → ℕ
shift_of r = if r == 0 then 48 else (if r == 1 then 32 else (if r == 2 then 16 else 0))

abbrev pub shift_of_32 : ℕ → ℕ
shift_of_32 r = if r == 0 then 16 else 0

-- A register without a variable, above the 16-bit ranges: both bytes take the low byte of the
-- word in `mb_holding_regs`.
abbrev pub unmapped_bytes : PlcMemory → ℕ → ℕ × ℕ
unmapped_bytes m p = (get_or m.mb_holding_regs p 0 % 256, get_or m.mb_holding_regs p 0 % 256)

-- The ladder of `ReadHoldingRegisters`, for one position.
unfoldable pub read_holding : PlcMemory → ℕ → Access (ℕ × ℕ)
read_holding m p =
    if leb p min_16b_range
    then in_bounds (read_entry m.int_output p (0, 0) word_bytes)
    else (if leb p max_16b_range
        then in_bounds (read_entry m.int_memory (p - min_16b_range) (0, 0) word_bytes)
        else (if leb p max_32b_range
            then in_bounds (
                read_entry m.dint_memory ((p - min_32b_range) / 2) (unmapped_bytes m p)
                  (λ v. word_bytes (word_at v (shift_of_32 ((p - min_32b_range) % 2)))))
            else (if leb p max_64b_range
                then in_bounds (
                    read_entry m.lint_memory ((p - min_64b_range) / 4) (unmapped_bytes m p)
                      (λ v. word_bytes (word_at v (shift_of ((p - min_64b_range) % 4)))))
                else illegal_address)))

-- `if (table[i] != NULL) *table[i] = f(*table[i]);`
abbrev pub update_entry : List (Option ℕ) → ℕ → (ℕ → ℕ) → Option (List (Option ℕ))
update_entry table i f = read_entry table i table (λ v. set table i (some (f v)))

abbrev pub map_access : {A B : Type 0} → (A → B) → Access A → Access B
map_access f (ok a) = ok (f a)
map_access f illegal_address = illegal_address
map_access f out_of_bounds = out_of_bounds

abbrev pub set_holding : PlcMemory → ℕ → ℕ → PlcMemory
set_holding m p w = record m { mb_holding_regs = set m.mb_holding_regs p w }

-- `*table[i] = f(*table[i])` where the entry is not NULL, and `other` where it is.
abbrev pub write_wide :
    List (Option ℕ) → ℕ → (ℕ → ℕ) → (List (Option ℕ) → PlcMemory) → PlcMemory → Access PlcMemory
write_wide table i f with_table other =
    in_bounds (read_entry table i other (λ v. with_table (set table i (some (f v)))))

-- The ladder of `WriteRegister`.
unfoldable pub write_holding : PlcMemory → ℕ → ℕ → Access PlcMemory
write_holding m p w =
    if leb p min_16b_range
    then map_access (λ t. record m { int_output = t })
        (in_bounds (update_entry m.int_output p (λ _. w)))
    else (if leb p max_16b_range
        then map_access (λ t. record m { int_memory = t })
            (in_bounds (update_entry m.int_memory (p - min_16b_range) (λ _. w)))
        else (if leb p max_32b_range
            then write_wide m.dint_memory ((p - min_32b_range) / 2)
                (λ v. put_word v (shift_of_32 ((p - min_32b_range) % 2)) w)
                (λ t. record m { dint_memory = t }) (set_holding m p w)
            else (if leb p max_64b_range
                then write_wide m.lint_memory ((p - min_64b_range) / 4)
                    (λ v. put_word v (shift_of ((p - min_64b_range) % 4)) w)
                    (λ t. record m { lint_memory = t }) (set_holding m p w)
                else illegal_address)))
