-- ===== src/Rtp/Packet/Numbered.antt =====
-- The sequence number and the timestamp that the parsers of src/rtp/mod.rs read from datagrams.
use rtp_engine.Base.{ℕ, ◌+◌, ◌%◌, ◌<◌, ◌≡◌, refl, subst, some, List, [], ◌∷◌, ◌++◌, arith, length}
use rtp_engine.Rtp.Header
use rtp_engine.Rtp.Header.{RtpHeader}
use rtp_engine.Rtp.Packet.{parse_sequence, parse_timestamp}

pub packet_sequence :
    (h : RtpHeader) (payload : List ℕ)
    → h.sequence < 65536
    → parse_sequence (Header.to_bytes h ++ payload) ≡ some h.sequence
unfolding Header.to_bytes parse_sequence
packet_sequence h payload fits = ground arith

-- Datagrams that carry the sequence numbers from that one on, with wrap-around.
abbrev pub Sequenced : ℕ → List (List ℕ) → Type 0
Sequenced seq [] = Unit
Sequenced seq (datagram ∷ later) =
    (parse_sequence datagram ≡ some seq) × Sequenced ((seq + 1) % 65536) later

pub Sequenced-append :
    (seq n : ℕ) (datagrams more : List (List ℕ))
    → seq < 65536
    → length datagrams ≡ n
    → Sequenced seq datagrams
    → Sequenced ((seq + n) % 65536) more
    → Sequenced seq (datagrams ++ more)
Sequenced-append seq n [] more fits count own rest =
    subst (λ s. Sequenced s more) (omega (arith, count)) rest
Sequenced-append seq n (datagram ∷ datagrams) more fits count (first, own) rest = (
  first,
  Sequenced-append ((seq + 1) % 65536) (length datagrams) datagrams more (omega arith) refl own
      (subst (λ s. Sequenced s more) (omega (arith, count)) rest),
)

-- Datagrams that carry the sequence numbers and the timestamps from those on, that many ticks
-- apart, both with wrap-around.
abbrev pub Stamped : ℕ → ℕ → ℕ → List (List ℕ) → Type 0
Stamped ticks seq timestamp [] = Unit
Stamped ticks seq timestamp (datagram ∷ later) =
    (parse_sequence datagram ≡ some seq)
    × (parse_timestamp datagram ≡ some timestamp)
    × Stamped ticks ((seq + 1) % 65536) ((timestamp + ticks) % 4294967296) later
