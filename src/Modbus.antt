-- ===== src/Modbus.antt =====
-- The Modbus/TCP server of the PLC runtime (Software/Packetized-PLC-IO/modbus.cpp): the buffers that
-- it shares with the program, and the words of a message.
pub mod Memory
pub mod Bits
pub mod Requests
pub mod WriteMultiple
pub mod Replies
pub mod Registers
pub mod Ladders
pub mod Unused
pub mod Coils
mod Examples
