-- ===== src/Rtp/Packet/Laws.antt =====
-- The packet codec of src/rtp/header.rs is a bijection between the packets with a valid header and
-- the byte strings that it accepts; the other parsers of src/rtp/mod.rs agree with it.
use rtp_engine.Base.{
  ℕ, ◌<◌, ◌≡◌, inl, inr, Option-cases, none, some, List, arith, length, length-append, drop-append,
  IsBytes,
}
use rtp_engine.Rtp.Header
use rtp_engine.Rtp.Header.{RtpHeader, fixed_part, read_extension}
use rtp_engine.Rtp.Header.RoundTrip.{IsValid, parse-to_bytes, length-to_bytes}
use rtp_engine.Rtp.Header.Reverse.{to_bytes-parse, parse-IsValid}
use rtp_engine.Rtp.Packet.{
  RtpPacket, parse, to_bytes, parse_rtp, parse_payload_type, parse_sequence, parse_timestamp,
  parse_ssrc,
}

-- A packet with a valid header is read back as it was written, header and payload.
pub packet_read_back : (p : RtpPacket) → IsValid p.header → parse (to_bytes p) ≡ some p
unfolding parse to_bytes
packet_read_back p v = ground (
  arith,
  parse-to_bytes p.header p.payload v,
  length-to_bytes p.header,
  length-append (Header.to_bytes p.header) p.payload,
  drop-append (Header.to_bytes p.header) p.payload (Header.header_length p.header),
)

-- A byte string that `parse` accepts has a valid header, and is what `to_bytes` writes for the
-- packet, byte for byte.
pub packet_written_back :
    (bytes : List ℕ) (p : RtpPacket)
    → IsBytes bytes
    → parse bytes ≡ some p
    → IsValid p.header × (to_bytes p ≡ bytes)
unfolding parse to_bytes
packet_written_back bytes p b e = elim (Option-cases (Header.parse bytes)) [
  | inl n ↦ ground arith
  | inr (h, s) ↦ ground (arith, to_bytes-parse bytes h b s, parse-IsValid bytes h b s)
]

parse_short : (bytes : List ℕ) → length bytes < 12 → Header.parse bytes ≡ none
unfolding Header.parse
parse_short bytes h = ground arith

-- `parse_rtp` succeeds where `RtpPacket::parse` does, with the same header and payload.
pub parse_rtp-eq :
    (bytes : List ℕ)
    → parse_rtp bytes ≡ elim (parse bytes) [ none ↦ none | some p ↦ some (p.header, p.payload) ]
unfolding parse_rtp parse
parse_rtp-eq bytes = ground (arith, parse_short bytes)

-- On a packet that parses, each of the parsers of one field returns the field of the header.
pub field_parsers_agree :
    (bytes : List ℕ) (h : RtpHeader)
    → Header.parse bytes ≡ some h
    → (parse_payload_type bytes ≡ some h.payload_type)
      × (parse_sequence bytes ≡ some h.sequence)
      × (parse_timestamp bytes ≡ some h.timestamp)
      × (parse_ssrc bytes ≡ some h.ssrc)
unfolding Header.parse parse_payload_type parse_sequence parse_timestamp parse_ssrc
field_parsers_agree bytes h e = ground arith
