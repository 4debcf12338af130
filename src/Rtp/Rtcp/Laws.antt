-- ===== src/Rtp/Rtcp/Laws.antt =====
-- The RTCP packets that src/rtp/rtcp.rs builds, read back field by field as RFC 3550 lays them out.
use rtp_engine.Base.{
  ℕ, ◌+◌, ◌*◌, ◌%◌, ◌≡◌, some, List, arith, length, byte_at, u16_at, u32_at, IsU32, IsByte,
}
use rtp_engine.Rtp.Rtcp.{
  RtcpType, sender_report, receiver_report, goodbye, parse, UnixTime, ntp_sec, ntp_frac,
  build_rtcp_sr, build_rtcp_rr, build_rtcp_bye,
}

-- The packet parses as of the type `t` and from `ssrc`, and its length field counts its 32-bit
-- words less one.
pub record IsReport (bytes : List ℕ) (t : RtcpType) (ssrc : ℕ) : Type 0 where
  pub parses : parse bytes ≡ some (record { packet_type = t; ssrc = ssrc; bytes = bytes })
  pub length_field : length bytes ≡ (u16_at bytes 2 + 1) * 4

-- A sender report parses as such, has a right length field, and carries the NTP time, the RTP
-- timestamp and the two counts where RFC 3550 section 6.4.1 puts them.
pub sender_report_fields :
    (ssrc packets octets rtp_ts : ℕ) (now : UnixTime)
    → IsU32 ssrc
    → IsU32 packets
    → IsU32 octets
    → IsU32 rtp_ts
    → let sr = build_rtcp_sr ssrc packets octets rtp_ts now in
      IsReport sr sender_report ssrc
      × (u32_at sr 8 ≡ ntp_sec now)
      × (u32_at sr 12 ≡ ntp_frac now)
      × (u32_at sr 16 ≡ rtp_ts)
      × (u32_at sr 20 ≡ packets)
      × (u32_at sr 24 ≡ octets)
unfolding build_rtcp_sr parse
sender_report_fields ssrc packets octets rtp_ts now a b c d = ground arith

-- A receiver report parses as such, has a right length field and one report block, with the
-- fraction lost, the low 24 bits of the packets lost, the highest sequence number and the jitter.
pub receiver_report_fields :
    (ssrc remote fraction lost highest jitter : ℕ)
    → IsU32 ssrc
    → IsU32 remote
    → IsByte fraction
    → IsU32 highest
    → IsU32 jitter
    → let rr = build_rtcp_rr ssrc remote fraction lost highest jitter in
      IsReport rr receiver_report ssrc
      × (byte_at rr 0 % 32 ≡ 1)
      × (u32_at rr 8 ≡ remote)
      × (byte_at rr 12 ≡ fraction)
      × (u32_at rr 12 % 16777216 ≡ lost % 16777216)
      × (u32_at rr 16 ≡ highest)
      × (u32_at rr 20 ≡ jitter)
unfolding build_rtcp_rr parse
receiver_report_fields ssrc remote fraction lost highest jitter a b c d e = ground arith

-- A BYE packet parses as such, with its source, and has a right length field.
pub bye_parses : (ssrc : ℕ) → IsU32 ssrc → IsReport (build_rtcp_bye ssrc) goodbye ssrc
unfolding build_rtcp_bye parse
bye_parses ssrc a = ground arith
