-- ===== src/Bmca.antt =====
-- The best master clock algorithm of IEEE 802.1AS, as the state machines of
-- Software/Time-Synchronization/time_sync run it.
pub mod StateSelection
pub mod AnnounceInfo
pub mod AnnounceInfoExt
pub mod AnnounceTransmit
pub mod Samples
