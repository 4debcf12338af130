-- ===== src/Session/Transmit.antt =====
-- Sending in `run_audio_tx` of src/session.rs: the packet loop of the microphone's callback, from the
-- resampled samples on, and the keepalive thread. The two share the sequence number, the timestamp,
-- the encoder, the SRTP context and the counters. The lock of the SRTP context may be poisoned, no
-- other mutex is.
pub mod Frames
pub mod Chunks
mod Tests
use rtp_engine.Base.{
  ℕ, zero, suc, ◌+◌, ◌%◌, Bool, Option, none, some, List, [], ◌∷◌, ◌++◌, length, replicate,
  if◌then◌else◌,
}
use rtp_engine.Base.Drain.{drain}
use rtp_engine.Base.Net.{SocketAddr}
use rtp_engine.Error.{ok, err}
use rtp_engine.Codec.Types.{CodecType, pcm_samples_per_packet, rtp_ticks_per_packet}
use rtp_engine.Codec.G711.{Sample, plus}
use rtp_engine.Codec.Coder.{Coders}
use rtp_engine.Rtp.Header
use rtp_engine.Rtp.Header.{to_bytes}
use rtp_engine.Rtp.Stats.{RtpCounters, record_sent}
use rtp_engine.Srtp.Crypto.{Crypto}
use rtp_engine.Srtp.Context.{SrtpContext, protect_rtp}
use rtp_engine.Recorder.{CallRecorder, add_tx}
use rtp_engine.Session.Dtmf.{Line, usable, send}

pub record Sender (Encoder : Type 0) : Type 0 where
  pub line : Line
  pub tx_ts : ℕ
  pub payload_type : ℕ
  pub encoder : Encoder
  -- The handle's recorder, while there is one.
  pub recorder : Option CallRecorder

-- `cb_learned.lock().ok().and_then(|g| *g).unwrap_or(remote)`
abbrev pub destination : Option SocketAddr → SocketAddr → SocketAddr
destination none remote = remote
destination (some learned) remote = learned

unfoldable pub record_tx : Option CallRecorder → List Sample → Option CallRecorder
record_tx none pcm = none
record_tx (some recorder) pcm = some (add_tx recorder pcm)

module _ (k : Coders) (codec : CodecType) (ssrc : ℕ) where
  -- The packet of one encoder call, with the sequence number and the timestamp taken.
  unfoldable pub build_audio : Sender k.Encoder → List Sample → Sender k.Encoder × List ℕ
  build_audio sender pcm =
      let header = Header.new sender.payload_type sender.line.tx_seq sender.tx_ts ssrc in
      let (payload, encoder) = k.encode sender.encoder pcm in
      (
        record sender {
          line = record sender.line { tx_seq = (sender.line.tx_seq + 1) % 65536 };
          tx_ts = (sender.tx_ts + rtp_ticks_per_packet codec) % 4294967296;
          encoder = encoder;
        },
        to_bytes header ++ payload,
      )

  module _ (c : Crypto) where
    -- What is sent of a packet, and the line after it: nothing where `protect_rtp` refuses.
    unfoldable pub send_or_drop : Line → List ℕ → Line × List (List ℕ)
    unfolding usable
    send_or_drop line packet = elim (usable line) [
      | none ↦ (record line { counters = record_sent line.counters (length packet) }, packet ∷ [])
      | some ctx ↦
          let (moved, protected) = protect_rtp c ctx packet in
          let held = record line { tx_srtp = some moved } in
          elim protected [
            | err e ↦ (held, [])
            | ok sealed ↦
                (record held { counters = record_sent line.counters (length sealed) }, sealed ∷ [])
          ]
    ]

    -- One packet's worth of samples is recorded, encoded and sent.
    unfoldable pub send_frame : Sender k.Encoder → List Sample → Sender k.Encoder × List (List ℕ)
    unfolding record_tx build_audio send_or_drop
    send_frame sender pcm =
        let recorded = record sender { recorder = record_tx sender.recorder pcm } in
        let (built, packet) = build_audio recorded pcm in
        let (line, datagrams) = send_or_drop built.line packet in
        (record built { line = line }, datagrams)

    -- `pending.extend` and the loop over the packets that are full: what is sent, what is left
    -- pending, and the sender after it.
    unfoldable pub send_samples :
        Sender k.Encoder
        → List Sample
        → List Sample
        → List (List ℕ) × List Sample × Sender k.Encoder
    send_samples sender pending pcm =
        drain send_frame (pcm_samples_per_packet codec) (pending ++ pcm) sender

    -- One round of the keepalive thread, which sends a packet that is refused as it is.
    unfoldable pub send_silence : Sender k.Encoder → Sender k.Encoder × List ℕ
    unfolding build_audio
    send_silence sender =
        let silence = replicate (pcm_samples_per_packet codec) (plus 0) in
        let (built, packet) = build_audio sender silence in
        let (line, datagram) = send c built.line packet in (record built { line = line }, datagram)

    -- The rounds at the start, against a NAT.
    unfoldable pub punch : ℕ → Sender k.Encoder → Sender k.Encoder × List (List ℕ)
    unfolding send_silence
    punch zero sender = (sender, [])
    punch (suc rounds) sender =
        let (next, datagram) = send_silence sender in
        let (last, datagrams) = punch rounds next in (last, datagram ∷ datagrams)

    -- A round after them: a packet only while the session is muted.
    unfoldable pub keepalive : Bool → Sender k.Encoder → Sender k.Encoder × List (List ℕ)
    unfolding send_silence
    keepalive muted sender =
        let (next, datagram) = send_silence sender in
        if muted then (next, datagram ∷ []) else (sender, [])
