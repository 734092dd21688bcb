-- ===== src/Modbus/WriteMultiple.antt =====
-- `WriteMultipleRegisters` and `processModbusMessage` (modbus.cpp). The ladder of the former is not
-- that of `WriteRegister`: in the 32-bit range it tests the entry of the first register of the
-- request for NULL, and in the 64-bit range it takes the words 1 to 3 by the first register and
-- stores the number of registers where the entry is NULL.
use ziggo_caa_s_switch.Prelude.{
  ℕ, zero, suc, ◌+◌, ◌-◌, ◌*◌, ◌/◌, ◌%◌, Bool, true, false, not, ◌||◌, List, Option, none, some,
  ltb, leb, ◌==◌, if◌then◌else◌, get_or, set, get_elem?,
}
use ziggo_caa_s_switch.Modbus.Memory.{
  PlcMemory, Access, ok, illegal_address, out_of_bounds, in_bounds, map_access, update_entry,
  put_word, shift_of, shift_of_32, set_holding, min_16b_range, max_16b_range, min_32b_range,
  max_32b_range, min_64b_range, max_64b_range, write_wide,
}
use ziggo_caa_s_switch.Modbus.Requests.{
  Reply, word, modbus_error, err_illegal_function, err_illegal_data_value, err_illegal_data_address,
  read_coils, read_discrete_inputs, read_holding_registers, read_input_registers, write_coil,
  write_register, write_multiple_coils,
}

-- `dint_memory[(Start - MIN_32B_RANGE) / 2]`, for any `Start`: division in C rounds towards 0, and
-- a negative index is undefined behaviour.
abbrev pub first_entry : List (Option ℕ) → ℕ → Option (Option ℕ)
first_entry table start =
    if leb min_32b_range start
    then get_elem? table ((start - min_32b_range) / 2)
    else (if start == 2047 then get_elem? table 0 else none)

-- `*table[i] = f(*table[i])` with no test for NULL.
abbrev pub force_entry : List (Option ℕ) → ℕ → (ℕ → ℕ) → Option (List (Option ℕ))
force_entry table i f = elim (get_elem? table i) [
  | none ↦ none
  | some none ↦ none
  | some (some v) ↦ some (set table i (some (f v)))
]

unfoldable pub write_dint : PlcMemory → ℕ → ℕ → ℕ → Access PlcMemory
write_dint m start p w = elim (first_entry m.dint_memory start) [
  | none ↦ out_of_bounds
  | some none ↦ ok (set_holding m p w)
  | some (some _) ↦
      map_access (λ t. record m { dint_memory = t })
        (in_bounds (
          force_entry m.dint_memory ((p - min_32b_range) / 2)
            (λ v. put_word v (shift_of_32 ((p - min_32b_range) % 2)) w)))
]

-- The word that the 64-bit ladder writes: the first by the position, the others by `Start`, whose
-- remainder is not 1, 2 or 3 below the range.
abbrev pub lint_word : ℕ → ℕ → ℕ → ℕ → ℕ
lint_word start p w v =
    if (p - min_64b_range) % 4 == 0
    then put_word v 48 w
    else (if ltb start min_64b_range
        then v
        else (if (start - min_64b_range) % 4 == 0
            then v
            else put_word v (shift_of ((start - min_64b_range) % 4)) w))

-- One round of the loop, at the position `p`; `count` is the number of registers of the request.
unfoldable pub write_one : PlcMemory → ℕ → ℕ → ℕ → ℕ → Access PlcMemory
unfolding write_dint
write_one m start count p w =
    if leb p min_16b_range
    then map_access (λ t. record m { int_output = t })
        (in_bounds (update_entry m.int_output p (λ _. w)))
    else (if leb p max_16b_range
        then map_access (λ t. record m { int_memory = t })
            (in_bounds (update_entry m.int_memory (p - min_16b_range) (λ _. w)))
        else (if leb p max_32b_range
            then write_dint m start p w
            else (if leb p max_64b_range
                then write_wide m.lint_memory ((p - min_64b_range) / 4) (lint_word start p w)
                    (λ t. record m { lint_memory = t }) (set_holding m start count)
                else illegal_address)))

unfoldable pub write_words : List ℕ → ℕ → ℕ → ℕ → PlcMemory → Bool → Option (PlcMemory × Bool)
write_words buffer start zero i m error = some (m, error)
write_words buffer start (suc n) i m error =
    elim (write_one m start (word buffer 10) (start + i) (word buffer (13 + i * 2))) [
      | ok m' ↦ write_words buffer start n (i + 1) m' error
      | illegal_address ↦ write_words buffer start n (i + 1) m true
      | out_of_bounds ↦ none
    ]

abbrev finish_words : List ℕ → Option (PlcMemory × Bool) → Option Reply
finish_words buffer none = none
finish_words buffer (some (m, error)) = some (
    if error
    then modbus_error m buffer err_illegal_data_address
    else record { memory = m; buffer = buffer; message_length = 12 })

unfoldable pub write_multiple_registers : PlcMemory → List ℕ → ℕ → Option Reply
write_multiple_registers m buffer size =
    let n = word buffer 10 in
    if ltb size 12
    then some (modbus_error m buffer err_illegal_data_value)
    else (if ltb size (13 + n * 2) || not (get_or buffer 12 0 == n * 2)
        then some (modbus_error m buffer err_illegal_data_value)
        else (let buffer' = set (set buffer 4 0) 5 6 in
            finish_words buffer' (write_words buffer' (word buffer 8) n 0 m false)))

unfoldable pub process_modbus_message : PlcMemory → List ℕ → ℕ → Option Reply
process_modbus_message m buffer size =
    let code = get_or buffer 7 0 in
    if ltb size 8
    then some (modbus_error m buffer err_illegal_function)
    else (if code == 1
        then some (read_coils m buffer size)
        else (if code == 2
            then some (read_discrete_inputs m buffer size)
            else (if code == 3
                then read_holding_registers m buffer size
                else (if code == 4
                    then read_input_registers m buffer size
                    else (if code == 5
                        then some (write_coil m buffer size)
                        else (if code == 6
                            then write_register m buffer size
                            else (if code == 15
                                then some (write_multiple_coils m buffer size)
                                else (if code == 16
                                    then write_multiple_registers m buffer size
                                    else some (modbus_error m buffer err_illegal_function)))))))))
