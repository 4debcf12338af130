-- ===== src/Rtp/Packet.antt =====
-- RtpPacket of src/rtp/header.rs, and the functions of src/rtp/mod.rs that parse a packet or one
-- field of it.
pub mod Laws
pub mod Numbered
mod Tests
use rtp_engine.Base.{
  ℕ, ◌%◌, Option, none, some, List, ◌++◌, ltb, leb, if◌then◌else◌, length, drop, byte_at, u16_at,
  u32_at,
}
use rtp_engine.Rtp.Header
use rtp_engine.Rtp.Header.{RtpHeader}

pub record RtpPacket : Type 0 where
  pub header : RtpHeader
  pub payload : List ℕ

unfoldable pub new : RtpHeader → List ℕ → RtpPacket
new header payload = record { header = header; payload = payload }

unfoldable pub simple : ℕ → ℕ → ℕ → ℕ → List ℕ → RtpPacket
simple payload_type sequence timestamp ssrc payload = record {
  header = Header.new payload_type sequence timestamp ssrc;
  payload = payload;
}

unfoldable pub parse : List ℕ → Option RtpPacket
parse bytes = elim (Header.parse bytes) [
  | none ↦ none
  | some header ↦
      if ltb (length bytes) (Header.header_length header)
      then none
      else some (record { header = header; payload = drop (Header.header_length header) bytes })
]

unfoldable pub to_bytes : RtpPacket → List ℕ
to_bytes p = Header.to_bytes p.header ++ p.payload

-- `parse_rtp` of src/rtp/mod.rs
unfoldable pub parse_rtp : List ℕ → Option (RtpHeader × List ℕ)
parse_rtp bytes = if ltb (length bytes) 12 then none else elim (Header.parse bytes) [
  | none ↦ none
  | some header ↦
      if leb (Header.header_length header) (length bytes)
      then some (header, drop (Header.header_length header) bytes)
      else none
]

unfoldable pub parse_payload_type : List ℕ → Option ℕ
parse_payload_type bytes = if ltb (length bytes) 2 then none else some (byte_at bytes 1 % 128)

unfoldable pub parse_sequence : List ℕ → Option ℕ
parse_sequence bytes = if ltb (length bytes) 4 then none else some (u16_at bytes 2)

unfoldable pub parse_timestamp : List ℕ → Option ℕ
parse_timestamp bytes = if ltb (length bytes) 8 then none else some (u32_at bytes 4)

unfoldable pub parse_ssrc : List ℕ → Option ℕ
parse_ssrc bytes = if ltb (length bytes) 12 then none else some (u32_at bytes 8)
