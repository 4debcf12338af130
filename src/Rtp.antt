-- ===== src/Rtp.antt =====
-- src/rtp: the packets and the statistics of RTP and RTCP.
pub mod Header
pub mod Packet
pub mod Rtcp
pub mod Stats
