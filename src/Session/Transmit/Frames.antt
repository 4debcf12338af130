-- ===== src/Session/Transmit/Frames.antt =====
-- The datagrams of `run_audio_tx` of src/session.rs: one for each packet's worth of samples.
use rtp_engine.Base.{ℕ, ◌+◌, ◌*◌, ◌%◌, ◌≡◌, some, List, [], ◌∷◌, ◌++◌, length}
use rtp_engine.Error.{Result, ok, err}
use rtp_engine.Rtp.Header
use rtp_engine.Rtp.Header.{to_bytes}
use rtp_engine.Rtp.Packet.{parse_sequence, parse_timestamp}
use rtp_engine.Rtp.Packet.Numbered.{Stamped}
use rtp_engine.Codec.Types.{CodecType, rtp_ticks_per_packet}
use rtp_engine.Codec.Coder.{Coders}
use rtp_engine.Srtp.Crypto.{Crypto}
use rtp_engine.Srtp.Context.{SrtpContext}
use rtp_engine.Session.Dtmf.{Line}
use rtp_engine.Session.Transmit.{Sender}

module _ (k : Coders) (codec : CodecType) (ssrc : ℕ) (c : Crypto) where
  -- Accepted, and sent under that sequence number and timestamp, which SRTP leaves in the clear.
  abbrev Accepts : ℕ → ℕ → SrtpContext × Result (List ℕ) → Type 0
  Accepts seq timestamp (moved, result) = elim result [
    | ok sealed ↦ (parse_sequence sealed ≡ some seq) × (parse_timestamp sealed ≡ some timestamp)
    | err _ ↦ ⊥
  ]

  abbrev packet_of : ℕ → ℕ → ℕ → List ℕ → List ℕ
  packet_of payload_type seq timestamp payload =
      to_bytes (Header.new payload_type seq timestamp ssrc) ++ payload

  -- One datagram leaves, under those numbers, and the sequence number is kept.
  abbrev Leaves : Line → ℕ → ℕ → Line × List (List ℕ) → Type 0
  Leaves line seq timestamp (after, datagrams) =
      (datagram : List ℕ) × (datagrams ≡ datagram ∷ [])
      × (parse_sequence datagram ≡ some seq)
      × (parse_timestamp datagram ≡ some timestamp)
      × (after.tx_seq ≡ line.tx_seq)

  -- The numbers after `n` packets.
  abbrev pub Advanced : ℕ → Sender k.Encoder → Sender k.Encoder → Type 0
  Advanced n sender after =
      (after.line.tx_seq ≡ (sender.line.tx_seq + n) % 65536)
      × (after.tx_ts ≡ (sender.tx_ts + n * rtp_ticks_per_packet codec) % 4294967296)

  abbrev Numbered : ℕ → Sender k.Encoder → List (List ℕ) × Sender k.Encoder → Type 0
  Numbered n sender (datagrams, after) =
      (length datagrams ≡ n)
      × Advanced n sender after
      × Stamped (rtp_ticks_per_packet codec) sender.line.tx_seq sender.tx_ts datagrams
