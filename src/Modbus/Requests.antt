-- ===== src/Modbus/Requests.antt =====
-- The request handlers of modbus.cpp, and `processModbusMessage`. A handler takes the image tables,
-- the message buffer and the number of bytes received, and returns the tables, the buffer and
-- `MessageLength`; `none` is undefined behaviour (an index past the end of a table).
use ziggo_caa_s_switch.Prelude.{
  ℕ, zero, suc, ◌+◌, ◌*◌, ◌/◌, ◌%◌, Bool, true, false, not, ◌||◌, List, Option, none, some, ltb,
  ◌==◌, if◌then◌else◌, get_or, set, or_bit, test_bit,
}
use ziggo_caa_s_switch.Modbus.Memory.{
  PlcMemory, Access, ok, illegal_address, out_of_bounds, read_holding, write_holding, read_entry,
  in_bounds, word_bytes, max_coils, max_discrete_input, max_inp_regs,
}
use ziggo_caa_s_switch.Modbus.Bits.{read_row}

pub record Reply : Type 0 where
  pub memory : PlcMemory
  pub buffer : List ℕ
  pub message_length : ℕ

abbrev pub err_illegal_function : ℕ
err_illegal_function = 1

abbrev pub err_illegal_data_address : ℕ
err_illegal_data_address = 2

abbrev pub err_illegal_data_value : ℕ
err_illegal_data_value = 3

-- `(int)(byte1 << 8) | (int)byte2`.
abbrev pub word : List ℕ → ℕ → ℕ
word buffer i = get_or buffer i 0 * 256 + get_or buffer (i + 1) 0

unfoldable pub modbus_error : PlcMemory → List ℕ → ℕ → Reply
modbus_error m buffer mb_error = record {
  memory = m;
  buffer = set (set (set (set buffer 4 0) 5 3) 7 (or_bit (get_or buffer 7 0) 7)) 8 mb_error;
  message_length = 9;
}

-- The size of a bit field in bytes, rounded up.
unfoldable pub byte_data_length : ℕ → ℕ
byte_data_length n = if ltb (n / 8 * 8) n then n / 8 + 1 else n / 8

-- The header of a read reply of `n` bytes.
abbrev pub prepare_reply : List ℕ → ℕ → List ℕ
prepare_reply buffer n =
    set (set (set buffer 4 ((n + 3) / 256 % 256)) 5 ((n + 3) % 256)) 8 (n % 256)

-- The outer loop, from byte `i` on, with `n` bytes left.
unfoldable pub read_rows : List (Option ℕ) → ℕ → ℕ → ℕ → ℕ → List ℕ → Bool → List ℕ × Bool
read_rows table limit start zero i buffer error = (buffer, error)
read_rows table limit start (suc n) i buffer error =
    let (byte, error') = read_row table limit (start + i * 8) 8 0 (get_or buffer (9 + i) 0) error in
    read_rows table limit start n (i + 1) (set buffer (9 + i) byte) error'

-- `ReadCoils` and `ReadDiscreteInputs` are the same code over two tables.
unfoldable pub read_bits : List (Option ℕ) → ℕ → PlcMemory → List ℕ → ℕ → Reply
read_bits table limit m buffer size =
    let start = word buffer 8 in
    let n = byte_data_length (word buffer 10) in
    if ltb size 12
    then modbus_error m buffer err_illegal_data_value
    else (if ltb 255 n
        then modbus_error m buffer err_illegal_data_address
        else (let (buffer', error) =
              read_rows table limit start n 0 (prepare_reply buffer n) false in
            if error
            then modbus_error m buffer' err_illegal_data_address
            else record { memory = m; buffer = buffer'; message_length = n + 9 }))

unfoldable pub read_coils : PlcMemory → List ℕ → ℕ → Reply
unfolding read_bits
read_coils m = read_bits m.bool_output max_coils m

unfoldable pub read_discrete_inputs : PlcMemory → List ℕ → ℕ → Reply
unfolding read_bits
read_discrete_inputs m = read_bits m.bool_input max_discrete_input m

-- The ladder of `ReadInputRegisters`, for one position.
unfoldable pub read_input : PlcMemory → ℕ → Access (ℕ × ℕ)
read_input m p =
    if ltb p max_inp_regs
    then in_bounds (read_entry m.int_input p (0, 0) word_bytes)
    else illegal_address

-- The loop over registers. An invalid address is noted, and the loop goes on.
unfoldable pub read_words :
    (ℕ → Access (ℕ × ℕ)) → ℕ → ℕ → ℕ → List ℕ → Bool → Option (List ℕ × Bool)
read_words read start zero i buffer error = some (buffer, error)
read_words read start (suc n) i buffer error = elim (read (start + i)) [
  | ok (hi, lo) ↦
      read_words read start n (i + 1) (set (set buffer (9 + i * 2) hi) (10 + i * 2) lo) error
  | illegal_address ↦ read_words read start n (i + 1) buffer true
  | out_of_bounds ↦ none
]

abbrev pub finish_read : PlcMemory → ℕ → Option (List ℕ × Bool) → Option Reply
finish_read m n none = none
finish_read m n (some (buffer, error)) = some (
    if error
    then modbus_error m buffer err_illegal_data_address
    else record { memory = m; buffer = buffer; message_length = n + 9 })

-- `ReadHoldingRegisters` and `ReadInputRegisters` differ in their ladders.
unfoldable pub read_registers : (ℕ → Access (ℕ × ℕ)) → PlcMemory → List ℕ → ℕ → Option Reply
read_registers read m buffer size =
    let n = word buffer 10 in
    if ltb size 12
    then some (modbus_error m buffer err_illegal_data_value)
    else (if ltb 255 (n * 2)
        then some (modbus_error m buffer err_illegal_data_address)
        else finish_read m (n * 2)
            (read_words read (word buffer 8) n 0 (prepare_reply buffer (n * 2)) false))

unfoldable pub read_holding_registers : PlcMemory → List ℕ → ℕ → Option Reply
unfolding read_registers
read_holding_registers m = read_registers (read_holding m) m

unfoldable pub read_input_registers : PlcMemory → List ℕ → ℕ → Option Reply
unfolding read_registers
read_input_registers m = read_registers (read_input m) m

-- The acknowledgement of a single write.
abbrev pub acknowledge : PlcMemory → List ℕ → Reply
acknowledge m buffer = record { memory = m; buffer = set (set buffer 4 0) 5 6; message_length = 12 }

-- `if (entry != NULL) *entry = value`, in a table of bits.
abbrev pub put_bit : List (Option ℕ) → ℕ → ℕ → List (Option ℕ)
put_bit table p v = elim (get_or table p none) [ none ↦ table | some _ ↦ set table p (some v) ]

unfoldable pub write_coil : PlcMemory → List ℕ → ℕ → Reply
write_coil m buffer size =
    let start = word buffer 8 in
    if ltb size 12
    then modbus_error m buffer err_illegal_data_value
    else (if ltb start max_coils
        then acknowledge
            (record m {
              bool_output = put_bit m.bool_output start (if ltb 0 (word buffer 10) then 1 else 0);
            })
            buffer
        else modbus_error m buffer err_illegal_data_address)

abbrev pub finish_write : PlcMemory → List ℕ → Access PlcMemory → Option Reply
finish_write m buffer (ok m') = some (acknowledge m' buffer)
finish_write m buffer illegal_address = some (modbus_error m buffer err_illegal_data_address)
finish_write m buffer out_of_bounds = none

unfoldable pub write_register : PlcMemory → List ℕ → ℕ → Option Reply
write_register m buffer size =
    if ltb size 12
    then some (modbus_error m buffer err_illegal_data_value)
    else finish_write m buffer (write_holding m (word buffer 8) (word buffer 10))

-- `bitRead(value, bit)`.
abbrev pub bit_read : ℕ → ℕ → ℕ
bit_read v j = if test_bit v j then 1 else 0

-- The loops of `WriteMultipleCoils`: `n` bits left, from bit `k` of the field on.
unfoldable pub write_bits : List ℕ → ℕ → ℕ → ℕ → List (Option ℕ) → Bool → List (Option ℕ) × Bool
write_bits buffer start zero k table error = (table, error)
write_bits buffer start (suc n) k table error =
    let valid = ltb (start + k) max_coils in
    write_bits buffer start n (k + 1)
      (if valid
        then put_bit table (start + k) (bit_read (get_or buffer (13 + k / 8) 0) (k % 8))
        else table)
      (if valid then error else true)

unfoldable pub write_multiple_coils : PlcMemory → List ℕ → ℕ → Reply
write_multiple_coils m buffer size =
    let n = byte_data_length (word buffer 10) in
    if ltb size 12
    then modbus_error m buffer err_illegal_data_value
    else (if ltb size (13 + n) || not (get_or buffer 12 0 == n)
        then modbus_error m buffer err_illegal_data_value
        else (let buffer' = set (set buffer 4 0) 5 6 in
            let (table, error) = write_bits buffer' (word buffer 8) (n * 8) 0 m.bool_output false in
            let m' = record m { bool_output = table } in
            if error
            then modbus_error m' buffer' err_illegal_data_address
            else record { memory = m'; buffer = buffer'; message_length = 12 }))
