-- ===== src/Pdelay.antt =====
-- The peer delay mechanism of one port (time_sync/md_pdelay_req_sm.c and md_pdelay_resp_sm.c): the
-- messages and their frames, the machine that requests and the one that responds.
pub mod Messages
pub mod Frames
pub mod Request
pub mod Response
pub mod Agreement
pub mod Link
pub mod Samples
mod Examples
mod Stray
