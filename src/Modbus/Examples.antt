-- ===== src/Modbus/Examples.antt =====
-- Messages and registers on small tables, and the theorems at them.
use ziggo_caa_s_switch.Prelude.{
  ℕ, ◌≡◌, inl, inr, refl, arith, List, [], ◌∷◌, none, some, replicate, false,
}
use ziggo_caa_s_switch.Modbus.Memory.{PlcMemory, out_of_bounds, read_holding, write_holding}
use ziggo_caa_s_switch.Modbus.Bits.{read_row, packed}
use ziggo_caa_s_switch.Modbus.WriteMultiple.{process_modbus_message, write_one}
use ziggo_caa_s_switch.Modbus.Replies.{
  HasLength, Keeps, process_modbus_message-HasLength, process_modbus_message-Keeps,
}
use ziggo_caa_s_switch.Modbus.Registers.{
  ReadsBack, IsAnswered, write_holding-ReadsBack, register_1024-out_of_bounds, register-IsAnswered,
}
use ziggo_caa_s_switch.Modbus.Ladders.{write_one-write_holding}
use ziggo_caa_s_switch.Modbus.Unused.{map_unused_io, map_unused_io-ReadsBack}
use ziggo_caa_s_switch.Modbus.Coils.{read_row-packed}

abbrev memory : PlcMemory
memory = record {
  bool_input = some 1 ∷ replicate 1023 none;
  bool_output = some 1 ∷ some 0 ∷ some 1 ∷ replicate 1021 none;
  int_input = some 7 ∷ replicate 1023 none;
  int_output = some 5 ∷ replicate 1023 none;
  int_memory = some 6 ∷ replicate 1023 none;
  dint_memory = some 0x12345678 ∷ replicate 1023 none;
  lint_memory = some 0x1122334455667788 ∷ replicate 1023 none;
  mb_holding_regs = replicate 8192 0;
}

-- Reads three coils from 0.
abbrev request : List ℕ
request = 0 ∷ 1 ∷ 0 ∷ 0 ∷ 0 ∷ 6 ∷ 1 ∷ 1 ∷ 0 ∷ 0 ∷ 0 ∷ 3 ∷ []

process_modbus_message-HasLength_example : HasLength (process_modbus_message memory request 12)
process_modbus_message-HasLength_example = process_modbus_message-HasLength memory request 12

-- Writes two registers from 0, with the data of one.
abbrev short_request : List ℕ
short_request = 0 ∷ 1 ∷ 0 ∷ 0 ∷ 0 ∷ 9 ∷ 1 ∷ 16 ∷ 0 ∷ 0 ∷ 0 ∷ 2 ∷ 4 ∷ 0 ∷ 9 ∷ []

process_modbus_message-Keeps_example : Keeps memory (process_modbus_message memory short_request 15)
process_modbus_message-Keeps_example =
    process_modbus_message-Keeps memory short_request 15 (inr (inl (omega arith)))

-- The second word of the 64-bit variable.
write_holding-ReadsBack_example : ReadsBack 4097 0xabcd (write_holding memory 4097 0xabcd)
write_holding-ReadsBack_example =
    write_holding-ReadsBack memory 4097 0xabcd 0x1122334455667788 refl (omega arith)

register_1024-out_of_bounds_example :
    (read_holding memory 1024 ≡ out_of_bounds) × (write_holding memory 1024 9 ≡ out_of_bounds)
register_1024-out_of_bounds_example = register_1024-out_of_bounds memory 9 refl

register-IsAnswered_example :
    IsAnswered 2049 (read_holding memory 2049) × IsAnswered 2049 (write_holding memory 2049 9)
register-IsAnswered_example =
    register-IsAnswered memory 2049 9
      (record { output_size = refl; memory_size = refl; dint_size = refl; lint_size = refl })
      (omega arith)

write_one-write_holding_example : write_one memory 2048 2 2049 9 ≡ write_holding memory 2049 9
write_one-write_holding_example =
    write_one-write_holding memory 2048 2 2049 9
      (inr (inl (omega arith, omega arith, omega arith, (0x12345678, refl), (0x12345678, refl))))

read_row-packed_example :
    read_row memory.bool_output 8192 0 8 0 255 false ≡ (packed memory.bool_output 0, false)
read_row-packed_example =
    read_row-packed memory.bool_output 8192 0 false 255 (omega arith) (omega arith)

map_unused_io-ReadsBack_example :
    ReadsBack 1030 0xabcd (write_holding (map_unused_io memory) 1030 0xabcd)
map_unused_io-ReadsBack_example =
    map_unused_io-ReadsBack memory 1030 0xabcd
      (record { output_size = refl; memory_size = refl; dint_size = refl; lint_size = refl })
      (omega arith) (omega arith) (omega arith)
