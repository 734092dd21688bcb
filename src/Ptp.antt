-- ===== src/Ptp.antt =====
-- The PTP data types and their arithmetic: Software/Time-Synchronization/tsn_drivers/ptp_types.h
-- and ptp_types.c.
pub mod ScaledNs
pub mod Priority
pub mod Doubles
pub mod Quotient
pub mod Globals
mod Examples
