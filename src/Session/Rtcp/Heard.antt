-- ===== src/Session/Rtcp/Heard.antt =====
-- What the next reports of src/session.rs take from a datagram that SRTP never accepts.
use rtp_engine.Srtp.Crypto.{Crypto}
