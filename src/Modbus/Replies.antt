-- ===== src/Modbus/Replies.antt =====
-- What holds of every reply of `processModbusMessage`.
use ziggo_caa_s_switch.Prelude.{
  ℕ, ◌+◌, ◌*◌, ◌/◌, ◌≤◌, ◌<◌, ◌≡◌, ◌⊎◌, Bool, true, false, if◌then◌else◌, arith, Option, none, some,
  List, get_or, ◌||◌, ◌==◌,
}
use ziggo_caa_s_switch.Modbus.Memory.{PlcMemory, Access}
use ziggo_caa_s_switch.Modbus.Requests.{
  Reply, word, byte_data_length, modbus_error, read_bits, read_coils, read_discrete_inputs,
  read_registers, read_holding_registers, read_input_registers, write_coil, write_register,
  write_multiple_coils,
}
use ziggo_caa_s_switch.Modbus.WriteMultiple.{write_multiple_registers, process_modbus_message}

-- A reply of 9 to 264 bytes.
abbrev pub HasLength : Option Reply → Type 0
HasLength none = Unit
HasLength (some r) = (9 ≤ r.message_length) × (r.message_length ≤ 264)

read_bits-HasLength :
    (table : List (Option ℕ)) (limit : ℕ) (m : PlcMemory) (buffer : List ℕ) (size : ℕ)
    → HasLength (some (read_bits table limit m buffer size))
unfolding read_bits modbus_error
read_bits-HasLength table limit m buffer size = ground arith

read_registers-HasLength :
    (read : ℕ → Access (ℕ × ℕ)) (m : PlcMemory) (buffer : List ℕ) (size : ℕ)
    → HasLength (read_registers read m buffer size)
unfolding read_registers modbus_error
read_registers-HasLength read m buffer size = ground arith

write_coil-HasLength :
    (m : PlcMemory) (buffer : List ℕ) (size : ℕ) → HasLength (some (write_coil m buffer size))
unfolding write_coil modbus_error
write_coil-HasLength m buffer size = ground arith

write_register-HasLength :
    (m : PlcMemory) (buffer : List ℕ) (size : ℕ) → HasLength (write_register m buffer size)
unfolding write_register modbus_error
write_register-HasLength m buffer size = ground arith

write_multiple_coils-HasLength :
    (m : PlcMemory) (buffer : List ℕ) (size : ℕ)
    → HasLength (some (write_multiple_coils m buffer size))
unfolding write_multiple_coils modbus_error
write_multiple_coils-HasLength m buffer size = ground arith

write_multiple_registers-HasLength :
    (m : PlcMemory) (buffer : List ℕ) (size : ℕ)
    → HasLength (write_multiple_registers m buffer size)
unfolding write_multiple_registers modbus_error
write_multiple_registers-HasLength m buffer size = ground arith

read_coils-HasLength :
    (m : PlcMemory) (buffer : List ℕ) (size : ℕ) → HasLength (some (read_coils m buffer size))
unfolding read_coils
read_coils-HasLength m buffer size = read_bits-HasLength _ _ m buffer size

read_discrete_inputs-HasLength :
    (m : PlcMemory) (buffer : List ℕ) (size : ℕ)
    → HasLength (some (read_discrete_inputs m buffer size))
unfolding read_discrete_inputs
read_discrete_inputs-HasLength m buffer size = read_bits-HasLength _ _ m buffer size

read_holding_registers-HasLength :
    (m : PlcMemory) (buffer : List ℕ) (size : ℕ) → HasLength (read_holding_registers m buffer size)
unfolding read_holding_registers
read_holding_registers-HasLength m buffer size = read_registers-HasLength _ m buffer size

read_input_registers-HasLength :
    (m : PlcMemory) (buffer : List ℕ) (size : ℕ) → HasLength (read_input_registers m buffer size)
unfolding read_input_registers
read_input_registers-HasLength m buffer size = read_registers-HasLength _ m buffer size

-- Every reply, errors included, has from 9 to 264 bytes, whatever the message says.
pub process_modbus_message-HasLength :
    (m : PlcMemory) (buffer : List ℕ) (size : ℕ) → HasLength (process_modbus_message m buffer size)
unfolding process_modbus_message modbus_error
process_modbus_message-HasLength m buffer size = ground (
  arith,
  read_coils-HasLength m buffer size,
  read_discrete_inputs-HasLength m buffer size,
  read_holding_registers-HasLength m buffer size,
  read_input_registers-HasLength m buffer size,
  write_coil-HasLength m buffer size,
  write_register-HasLength m buffer size,
  write_multiple_coils-HasLength m buffer size,
  write_multiple_registers-HasLength m buffer size,
)

-- The reply leaves the image tables as they are.
abbrev pub Keeps : PlcMemory → Option Reply → Type 0
Keeps m none = Unit
Keeps m (some r) = r.memory ≡ m

read_bits-Keeps :
    (table : List (Option ℕ)) (limit : ℕ) (m : PlcMemory) (buffer : List ℕ) (size : ℕ)
    → Keeps m (some (read_bits table limit m buffer size))
unfolding read_bits modbus_error
read_bits-Keeps table limit m buffer size = ground arith

read_registers-Keeps :
    (read : ℕ → Access (ℕ × ℕ)) (m : PlcMemory) (buffer : List ℕ) (size : ℕ)
    → Keeps m (read_registers read m buffer size)
unfolding read_registers modbus_error
read_registers-Keeps read m buffer size = ground arith

reads-Keep :
    (m : PlcMemory) (buffer : List ℕ) (size : ℕ)
    → Keeps m (some (read_coils m buffer size))
      × Keeps m (some (read_discrete_inputs m buffer size))
      × Keeps m (read_holding_registers m buffer size)
      × Keeps m (read_input_registers m buffer size)
unfolding read_coils read_discrete_inputs read_holding_registers read_input_registers
reads-Keep m buffer size = (
  read_bits-Keeps _ _ m buffer size,
  read_bits-Keeps _ _ m buffer size,
  read_registers-Keeps _ m buffer size,
  read_registers-Keeps _ m buffer size,
)

-- Only the codes 5, 6, 15 and 16 write.
abbrev pub is_write : ℕ → Bool
is_write code = code == 5 || code == 6 || code == 15 || code == 16

-- The bytes of data that a message of the code 15 or 16 carries for its number of coils or registers.
abbrev pub data_size : ℕ → ℕ → ℕ
data_size code count = if code == 15 then (count + 7) / 8 else count * 2

abbrev pub is_multiple : ℕ → Bool
is_multiple code = code == 15 || code == 16

-- The bytes that a message of a code needs.
abbrev pub needed_size : ℕ → ℕ → ℕ
needed_size code count = if is_multiple code then 13 + data_size code count else 12

byte_data_length_lem : (n : ℕ) → byte_data_length n ≡ (n + 7) / 8
unfolding byte_data_length
byte_data_length_lem n = ground arith

multiple-Keep :
    (m : PlcMemory) (buffer : List ℕ) (size : ℕ)
    → ((size < 13 + (word buffer 10 + 7) / 8)
          ⊎ ((get_or buffer 12 0 == (word buffer 10 + 7) / 8) ≡ false)
        → Keeps m (some (write_multiple_coils m buffer size)))
      × ((size < 13 + word buffer 10 * 2) ⊎ ((get_or buffer 12 0 == word buffer 10 * 2) ≡ false)
          → Keeps m (write_multiple_registers m buffer size))
unfolding modbus_error write_multiple_coils write_multiple_registers
multiple-Keep m buffer size =
    let e = byte_data_length_lem (word buffer 10) in
    (λ h. rw (write_multiple_coils, e) (ground arith), λ h. ground arith)

-- No table is changed by a message whose code is not a write; by one of less than 12 bytes; by one of
-- the code 15 or 16 of less than 13 bytes and the bytes that its number of coils or registers takes;
-- or by one of the code 15 or 16 whose byte 12 is not that number of bytes.
pub process_modbus_message-Keeps :
    (m : PlcMemory) (buffer : List ℕ) (size : ℕ)
    → (is_write (get_or buffer 7 0) ≡ false)
      ⊎ (size < needed_size (get_or buffer 7 0) (word buffer 10))
      ⊎ ((is_multiple (get_or buffer 7 0) ≡ true)
          × ((get_or buffer 12 0 == data_size (get_or buffer 7 0) (word buffer 10)) ≡ false))
    → Keeps m (process_modbus_message m buffer size)
unfolding process_modbus_message modbus_error write_coil write_register
process_modbus_message-Keeps m buffer size h =
    ground (arith, reads-Keep m buffer size, multiple-Keep m buffer size)
