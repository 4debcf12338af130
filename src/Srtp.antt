-- ===== src/Srtp.antt =====
-- src/srtp.rs: the replay window, the rollover counter of one source, the cryptographic transforms,
-- and the context that protects and unprotects RTP and RTCP packets.
pub mod Window
pub mod Source
pub mod Crypto
pub mod Context
pub mod Sdp
