-- ===== src/Session/Rtcp.antt =====
-- `run_rtcp` of src/session.rs: the reports of a round, and a datagram that it hears. A context whose
-- lock is poisoned counts as none, since `run_rtcp` does the same with the two.
pub mod Heard
mod Tests
use rtp_engine.Base.{
  ℕ, ◌+◌, ◌-◌, ◌*◌, ◌/◌, ◌%◌, Bool, ◌&&◌, ◌||◌, Option, none, some, List, [], ◌∷◌, length, byte_at,
  u32_at, leb, ◌==◌, if◌then◌else◌,
}
use rtp_engine.Base.Float.{F64}
use rtp_engine.Error.{Result, ok, err}
use rtp_engine.Rtp.Rtcp.{UnixTime, build_rtcp_sr, build_rtcp_rr}
use rtp_engine.Rtp.Stats.{RtpCounters, snapshot}
use rtp_engine.Srtp.Crypto.{Crypto}
use rtp_engine.Srtp.Context.{SrtpContext, protect_rtcp, unprotect_rtcp}

pub record Reporter : Type 0 where
  pub remote_ssrc : ℕ
  pub tx_srtp : Option SrtpContext
  pub rx_srtp : Option SrtpContext
  pub counters : RtpCounters

-- `(jitter_us * u64::from(clock_rate) / 1_000_000) as u32`
unfoldable pub rtcp_jitter_ticks : ℕ → ℕ → ℕ
rtcp_jitter_ticks jitter_us clock_rate = jitter_us * clock_rate / 1000000 % 4294967296

-- `(lost * 256).checked_div(expected).unwrap_or(0) as u8`
unfoldable pub loss_fraction : ℕ → ℕ → ℕ
loss_fraction lost expected = if expected == 0 then 0 else lost * 256 / expected % 256

-- The result of a call, or the packet in its place.
abbrev pub ok_or : Result (List ℕ) → List ℕ → List ℕ
ok_or (ok bytes) packet = bytes
ok_or (err e) packet = packet

module _ (c : Crypto) where
  unfoldable pub seal : Option SrtpContext → List ℕ → Option SrtpContext × List ℕ
  seal none report = (none, report)
  seal (some ctx) report =
      let (moved, protected) = protect_rtcp c ctx report in (some moved, ok_or protected report)

  unfoldable pub open_report : Option SrtpContext → List ℕ → Option SrtpContext × List ℕ
  open_report none datagram = (none, datagram)
  open_report (some ctx) datagram =
      let (moved, opened) = unprotect_rtcp c ctx datagram in (some moved, ok_or opened datagram)

  -- The receiver report, once a remote SSRC is known.
  unfoldable pub receiver_report : Reporter → ℕ → ℕ → ℕ → List ℕ
  unfolding loss_fraction rtcp_jitter_ticks
  receiver_report reporter ssrc clock_rate received =
      let expected = reporter.counters.expected_packets in
      let lost = expected - received in
      build_rtcp_rr ssrc reporter.remote_ssrc (loss_fraction lost expected) (lost % 4294967296)
        reporter.counters.highest_seq (rtcp_jitter_ticks reporter.counters.jitter_us clock_rate)

  module _ (f : F64) where
    -- The reports of a round, at the stream's timestamp `rtp_ts`.
    unfoldable pub report : Reporter → ℕ → ℕ → ℕ → UnixTime → Reporter × List (List ℕ)
    unfolding seal receiver_report
    report reporter ssrc clock_rate rtp_ts now =
        let (stats, counters) = snapshot f reporter.counters in
        let sr =
          build_rtcp_sr ssrc (stats.packets_sent % 4294967296) (stats.bytes_sent % 4294967296)
            rtp_ts now in
        let (ctx, sealed) = seal reporter.tx_srtp sr in
        let reported = record reporter { tx_srtp = ctx; counters = counters } in
        let rr = receiver_report reported ssrc clock_rate stats.packets_received in
        let (ctx_after, sealed_rr) = seal ctx rr in
        if reporter.remote_ssrc == 0
        then (reported, sealed ∷ [])
        else (record reported { tx_srtp = ctx_after }, sealed ∷ sealed_rr ∷ [])

  -- A datagram that comes within the 50 ms.
  unfoldable pub hear : Reporter → List ℕ → Reporter
  unfolding open_report
  hear reporter datagram =
      let (ctx, report) = open_report reporter.rx_srtp datagram in
      let heard = record reporter { rx_srtp = ctx } in
      if leb 8 (length report) && (byte_at report 1 == 200 || byte_at report 1 == 201)
      then record heard { remote_ssrc = u32_at report 4 }
      else heard
