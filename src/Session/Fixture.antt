-- ===== src/Session/Fixture.antt =====
-- The values that the tests of src/session.rs share.
use rtp_engine.Base.{ℕ, false, none, some, [], replicate}
use rtp_engine.Base.Float.{whole}
use rtp_engine.Base.Net.{SocketAddr, v4}
use rtp_engine.Codec.Coder.{Law, mu}
use rtp_engine.Rtp.Stats.{RtpCounters}
use rtp_engine.Rtp.Stats
use rtp_engine.Jitter.State
use rtp_engine.Srtp.Source.{idle}
use rtp_engine.Srtp.Context.{SrtpContext}
use rtp_engine.Codec.Types.{opus}
use rtp_engine.Session.Transmit.{Sender}
use rtp_engine.Session.Receive.{Receiver, jitter_config}

abbrev pub unused : SrtpContext
unused = record {
  session_key = replicate 16 1;
  session_salt = replicate 14 2;
  session_auth_key = replicate 20 3;
  rtcp_session_key = replicate 16 4;
  rtcp_session_salt = replicate 14 5;
  rtcp_session_auth_key = replicate 20 6;
  tx = idle;
  rx = [];
  srtcp_index = 0;
  rtcp_rx = [];
}

abbrev pub counters : RtpCounters
counters = Stats.new "PCMU"

abbrev pub alice : SocketAddr
alice = record { ip = v4 0xC0000201; port = 4000; flowinfo = 0; scope_id = 0 }

abbrev pub stranger : SocketAddr
stranger = record { ip = v4 0xCB007101; port = 4000; flowinfo = 0; scope_id = 0 }

abbrev pub sender : Sender Law
sender = record {
  line = record { tx_seq = 65535; tx_srtp = some unused; poisoned = false; counters = counters };
  tx_ts = 4294967200;
  payload_type = 0;
  encoder = mu;
  recorder = none;
}

abbrev pub receiver : Receiver ℕ Law
receiver = record {
  learned = none;
  srtp = some unused;
  counters = counters;
  last_transit = none;
  jitter = State.new whole (jitter_config opus);
  decoder = mu;
  recorder = none;
  payload_type = 0;
}
