-- ===== src/Session/Rtcp/Tests.antt =====
-- A report in the clear on an encrypted call.
use rtp_engine.Base.{ℕ, some, List, [], ◌∷◌}
use rtp_engine.Rtp.Rtcp.{UnixTime}
use rtp_engine.Session.Fixture.{unused, counters}
use rtp_engine.Session.Rtcp.{Reporter}

abbrev reporter : Reporter
reporter = record {
  remote_ssrc = 5;
  tx_srtp = some unused;
  rx_srtp = some unused;
  counters = counters;
}

abbrev midnight : UnixTime
midnight = record { secs = 0; subsec_nanos = 0 }

abbrev forged : List ℕ
forged = 0x80 ∷ 201 ∷ 0 ∷ 1 ∷ 0 ∷ 0 ∷ 0 ∷ 9 ∷ []
