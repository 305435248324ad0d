-- ===== src/Transport.antt =====
-- media-svc/transport: SRTP and ICE.
pub mod Srtp
pub mod Ice
pub mod Credentials
mod Runs
