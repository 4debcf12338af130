-- ===== src/Session.antt =====
-- What src/session.rs computes in its threads, whose sockets, devices, clocks and locks are left
-- out: a thread's state is a record, and what leaves a socket is a result.
pub mod Dtmf
pub mod Transmit
pub mod Capture
pub mod Receive
pub mod Playback
pub mod Rtcp
mod Fixture
