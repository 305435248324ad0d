-- ===== src/Sfu.antt =====
-- media-svc/sfu: peers, the flows between them, and the router that forwards RTP and RTCP.
pub mod Types
pub mod RouteTable
pub mod State
pub mod Setup
pub mod Mids
pub mod Forward
pub mod Feedback
pub mod Memory
mod Runs
