-- ===== src/Sync.antt =====
-- The messages that carry the time to the neighbour of a port, their frames, and the machine that sends
-- them (time_sync/md_sync_send_sm.c).
pub mod Messages
pub mod Send
pub mod Receive
pub mod Link
mod Examples
