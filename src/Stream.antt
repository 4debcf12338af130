-- ===== src/Stream.antt =====
-- StreamCore of src/stream.rs: the packet handling of one stream, which joins RTP, SRTP, the jitter
-- buffer and a codec. MediaStream, its driver over sockets and timers, is left out.
pub mod State
pub mod Arrival
pub mod Playout
pub mod Sending
pub mod Trust
pub mod Latch
pub mod Frames
pub mod DigitPacket
pub mod Digits
pub mod Dtmf
mod Tests
pub mod AudioPacket
pub mod Passage
