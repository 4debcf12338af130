-- ===== src/Rtp/Rtcp.antt =====
-- src/rtp/rtcp.rs: the packet types, `RtcpPacket::parse`, and the builders of sender reports,
-- receiver reports and BYE. The wall clock that `build_rtcp_sr` reads is an argument.
pub mod Laws
mod Tests
use rtp_engine.Base.{
  ℕ, ◌+◌, ◌*◌, ◌/◌, ◌%◌, Bool, not, Option, none, some, List, [], ◌∷◌, ◌++◌, ltb, ◌==◌,
  if◌then◌else◌, length, byte_at, u32_at, u16_to_be, u32_to_be,
}

pub data RtcpType : Type 0 where
  sender_report receiver_report source_description goodbye application_defined : RtcpType

unfoldable pub from_byte : ℕ → Option RtcpType
from_byte b =
    if b == 200
    then some sender_report
    else if b == 201
    then some receiver_report
    else if b == 202
    then some source_description
    else if b == 203
    then some goodbye
    else if b == 204
    then some application_defined
    else none

pub record RtcpPacket : Type 0 where
  pub packet_type : RtcpType
  pub ssrc : ℕ
  pub bytes : List ℕ

unfoldable pub parse : List ℕ → Option RtcpPacket
unfolding from_byte
parse bytes =
    if ltb (length bytes) 8
    then none
    else if not (byte_at bytes 0 / 64 % 4 == 2)
    then none
    else elim (from_byte (byte_at bytes 1)) [
      | none ↦ none
      | some t ↦ some (record { packet_type = t; ssrc = u32_at bytes 4; bytes = bytes })
    ]

-- `SystemTime::now().duration_since(UNIX_EPOCH)`: whole seconds, and nanoseconds below 10 ^ 9.
pub record UnixTime : Type 0 where
  pub secs : ℕ
  pub subsec_nanos : ℕ

-- `ntp_sec as u32`
unfoldable pub ntp_sec : UnixTime → ℕ
ntp_sec now = (now.secs + 2208988800) % 4294967296

unfoldable pub ntp_frac : UnixTime → ℕ
ntp_frac now = now.subsec_nanos * 4294967296 / 1000000000 % 4294967296

unfoldable pub build_rtcp_sr : ℕ → ℕ → ℕ → ℕ → UnixTime → List ℕ
unfolding ntp_sec ntp_frac
build_rtcp_sr ssrc packets_sent octets_sent rtp_ts now =
    0x80
    ∷ 200
    ∷ (u16_to_be 6
        ++ (u32_to_be ssrc
            ++ (u32_to_be (ntp_sec now)
                ++ (u32_to_be (ntp_frac now)
                    ++ (u32_to_be rtp_ts ++ (u32_to_be packets_sent ++ u32_to_be octets_sent))))))

-- `((loss_fraction as u32) << 24) | (cumulative_lost & 0x00FF_FFFF)`
unfoldable pub lost_word : ℕ → ℕ → ℕ
lost_word loss_fraction cumulative_lost = loss_fraction * 16777216 + cumulative_lost % 16777216

unfoldable pub build_rtcp_rr : ℕ → ℕ → ℕ → ℕ → ℕ → ℕ → List ℕ
unfolding lost_word
build_rtcp_rr ssrc remote_ssrc loss_fraction cumulative_lost highest_seq jitter =
    0x81
    ∷ 201
    ∷ (u16_to_be 7
        ++ (u32_to_be ssrc
            ++ (u32_to_be remote_ssrc
                ++ (u32_to_be (lost_word loss_fraction cumulative_lost)
                    ++ (u32_to_be highest_seq
                        ++ (u32_to_be jitter ++ (u32_to_be 0 ++ u32_to_be 0)))))))

unfoldable pub build_rtcp_bye : ℕ → List ℕ
build_rtcp_bye ssrc = 0x81 ∷ 203 ∷ (u16_to_be 1 ++ u32_to_be ssrc)
