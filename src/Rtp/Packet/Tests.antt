-- ===== src/Rtp/Packet/Tests.antt =====
-- The packet codec of src/rtp on concrete packets, and its theorems at concrete inputs.
use rtp_engine.Base.{ℕ, ◌≡◌, refl, true, false, none, some, List, [], ◌∷◌, arith}
use rtp_engine.Rtp.Header
use rtp_engine.Rtp.Header.{RtpHeader}
use rtp_engine.Rtp.Header.RoundTrip.{IsValid}
use rtp_engine.Rtp.Packet.{
  RtpPacket, simple, parse, to_bytes, parse_payload_type, parse_sequence, parse_timestamp,
  parse_ssrc,
}
use rtp_engine.Rtp.Packet.Laws.{packet_read_back, packet_written_back}

-- A marked Opus packet with one CSRC and a one-word extension.
abbrev full_header : RtpHeader
full_header = record {
  version = 2;
  padding = false;
  extension = true;
  csrc_count = 1;
  marker = true;
  payload_type = 111;
  sequence = 0x1234;
  timestamp = 160000;
  ssrc = 0xdeadbeef;
  csrc = 0xaaaaaaaa ∷ [];
  extension_data = some (0xbe ∷ 0xde ∷ 0 ∷ 1 ∷ 1 ∷ 2 ∷ 3 ∷ 4 ∷ []);
}

abbrev full_packet : RtpPacket
full_packet = record { header = full_header; payload = 9 ∷ 8 ∷ 7 ∷ [] }

full_header-IsValid : IsValid full_header
full_header-IsValid = record {
  version_two = refl;
  count = refl;
  few = omega arith;
  type_fits = omega arith;
  sequence_fits = omega arith;
  timestamp_fits = omega arith;
  ssrc_fits = omega arith;
  csrc_fit = omega arith;
  extension_fits = (refl, omega arith, refl);
}

-- test_parse_rtp of src/rtp/mod.rs
abbrev plain_bytes : List ℕ
plain_bytes =
    0x80 ∷ 0 ∷ 0 ∷ 1 ∷ 0 ∷ 0 ∷ 0 ∷ 0xa0 ∷ 0x12 ∷ 0x34 ∷ 0x56 ∷ 0x78 ∷ 0xde ∷ 0xad ∷ 0xbe ∷ 0xef ∷ []

plain_packet : parse plain_bytes ≡ some (simple 0 1 160 0x12345678 (0xde ∷ 0xad ∷ 0xbe ∷ 0xef ∷ []))
unfolding parse simple Header.parse Header.new Header.header_length
plain_packet = refl

cut_extension :
    Header.parse (0x90 ∷ 0 ∷ 0 ∷ 1 ∷ 0 ∷ 0 ∷ 0 ∷ 0 ∷ 0 ∷ 0 ∷ 0 ∷ 0 ∷ 1 ∷ 2 ∷ 0 ∷ []) ≡ none
unfolding Header.parse
cut_extension = refl

packet_read_back_example : parse (to_bytes full_packet) ≡ some full_packet
packet_read_back_example = packet_read_back full_packet full_header-IsValid

packet_written_back_example :
    IsValid (Header.new 0 1 160 0x12345678)
    × (to_bytes (simple 0 1 160 0x12345678 (0xde ∷ 0xad ∷ 0xbe ∷ 0xef ∷ [])) ≡ plain_bytes)
unfolding simple
packet_written_back_example = packet_written_back plain_bytes _ (omega arith) plain_packet

plain_fields :
    (parse_payload_type plain_bytes ≡ some 0)
    × (parse_sequence plain_bytes ≡ some 1)
    × (parse_timestamp plain_bytes ≡ some 160)
    × (parse_ssrc plain_bytes ≡ some 0x12345678)
unfolding parse_payload_type parse_sequence parse_timestamp parse_ssrc
plain_fields = (refl, refl, refl, refl)
