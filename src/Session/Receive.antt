-- ===== src/Session/Receive.antt =====
-- Receiving in `run_audio_rx` of src/session.rs: what is done with a datagram, and with a tick of
-- the playout timer up to the decoded samples. A mutex is never poisoned. What is only logged, and
-- `first_seq`, which is never read, is left out.
pub mod Redirect
pub mod Transit
mod Tests
use rtp_engine.Base.{
  ℕ, ◌+◌, ◌-◌, ◌*◌, ◌/◌, Option, none, some, List, [], ◌∷◌, length, ◌==◌, if◌then◌else◌,
}
use rtp_engine.Base.Int.{ℤ, pos, negsuc, ◌-ℤ◌}
use rtp_engine.Base.Float.{F64}
use rtp_engine.Base.Net.{SocketAddr}
use rtp_engine.Error.{Result, ok, err}
use rtp_engine.Codec.Types.{CodecType, clock_rate, pcm_samples_per_packet}
use rtp_engine.Codec.G711.{Sample}
use rtp_engine.Codec.Coder.{Coders}
use rtp_engine.Rtp.Header.{RtpHeader}
use rtp_engine.Rtp.Packet.{parse_rtp, parse_sequence, parse_timestamp}
use rtp_engine.Rtp.Stats.{RtpCounters, record_received, update_jitter}
use rtp_engine.Srtp.Crypto.{Crypto}
use rtp_engine.Srtp.Context.{SrtpContext, unprotect_rtp}
use rtp_engine.Jitter.State.{JitterBuffer, JitterConfig, adaptive, BufferedPacket, peek_next}
use rtp_engine.Jitter.Arrival.{push_at}
use rtp_engine.Jitter.Playout.{pop_at}
use rtp_engine.Recorder.{CallRecorder, add_rx}

pub record Receiver (Float Decoder : Type 0) : Type 0 where
  pub learned : Option SocketAddr
  pub srtp : Option SrtpContext
  pub counters : RtpCounters
  pub last_transit : Option ℤ
  pub jitter : JitterBuffer Float
  pub decoder : Decoder
  -- The handle's recorder, while there is one.
  pub recorder : Option CallRecorder
  -- Shared with the sending thread.
  pub payload_type : ℕ

unfoldable pub jitter_config : CodecType → JitterConfig
jitter_config codec = record {
  mode = adaptive 40 20 150;
  clock_rate = clock_rate codec;
  max_packets = 50;
}

-- `unsigned_abs`
abbrev pub unsigned_abs : ℤ → ℕ
unsigned_abs (pos n) = n
unsigned_abs (negsuc n) = n + 1

abbrev pub usec_per_tick : CodecType → ℕ
usec_per_tick codec = 1000000 / clock_rate codec

-- `arrival - (ts as i64 * usec_per_tick)`
abbrev pub transit_of : CodecType → ℕ → ℕ → ℤ
transit_of codec arrival timestamp = pos arrival -ℤ pos (timestamp * usec_per_tick codec)

unfoldable pub record_rx : Option CallRecorder → List Sample → Option CallRecorder
record_rx none pcm = none
record_rx (some recorder) pcm = some (add_rx recorder pcm)

-- The source of the first datagram is remembered.
unfoldable pub learn : Option SocketAddr → SocketAddr → Option SocketAddr
learn none from = some from
learn (some learned) from = some learned

module _ (f : F64) (k : Coders) (codec : CodecType) where
  -- The counters with a packet's sequence number, if it has one.
  unfoldable pub count_packet : RtpCounters → ℕ → Option ℕ → RtpCounters
  count_packet counters size none = counters
  count_packet counters size (some seq) = record_received counters size seq

  -- The jitter, at the time `arrival` in microseconds.
  unfoldable pub measure : Receiver f.Value k.Decoder → ℕ → Option ℕ → Receiver f.Value k.Decoder
  measure receiver arrival none = receiver
  measure receiver arrival (some timestamp) =
      let transit = transit_of codec arrival timestamp in
      record receiver {
        counters = elim receiver.last_transit [
          | none ↦ receiver.counters
          | some previous ↦ update_jitter f receiver.counters (unsigned_abs (transit -ℤ previous))
        ];
        last_transit = some transit;
      }

  -- The audio goes into the jitter buffer.
  unfoldable pub buffer :
      Receiver f.Value k.Decoder → Option (RtpHeader × List ℕ) → ℕ → Receiver f.Value k.Decoder
  buffer receiver none now = receiver
  buffer receiver (some (header, payload)) now =
      if header.payload_type == receiver.payload_type
      then record receiver {
        jitter = (push_at f receiver.jitter header.sequence header.timestamp payload now).1;
      }
      else receiver

  -- A packet in the clear, of a datagram of `size` bytes.
  unfoldable pub receive_clear :
      Receiver f.Value k.Decoder → List ℕ → ℕ → ℕ → ℕ → Receiver f.Value k.Decoder
  unfolding count_packet measure buffer
  receive_clear receiver packet size arrival now =
      let counted = record receiver {
        counters = count_packet receiver.counters size (parse_sequence packet);
      } in
      buffer (measure counted arrival (parse_timestamp packet)) (parse_rtp packet) now

  -- What is done once `unprotect_rtp` has answered.
  unfoldable pub receive_opened :
      Receiver f.Value k.Decoder → Result (List ℕ) → ℕ → ℕ → ℕ → Receiver f.Value k.Decoder
  unfolding receive_clear
  receive_opened receiver (err e) size arrival now = receiver
  receive_opened receiver (ok clear) size arrival now =
      receive_clear receiver clear size arrival now

  -- A datagram, at `arrival` microseconds by the wall clock and `now` by the monotonic one.
  unfoldable pub receive :
      Crypto → Receiver f.Value k.Decoder → List ℕ → SocketAddr → ℕ → ℕ → Receiver f.Value k.Decoder
  unfolding learn
  receive c receiver datagram from arrival now =
      let known = record receiver { learned = learn receiver.learned from } in
      elim receiver.srtp [
        | none ↦ receive_clear known datagram (length datagram) arrival now
        | some ctx ↦
            let (moved, opened) = unprotect_rtp c ctx datagram in
            receive_opened (record known { srtp = some moved }) opened (length datagram) arrival now
      ]

  -- The samples of a packet, concealed where the payload is empty.
  unfoldable pub decode_packet :
      Receiver f.Value k.Decoder → List ℕ → List Sample × Receiver f.Value k.Decoder
  decode_packet receiver [] =
      let (pcm, decoder) =
        k.conceal_loss receiver.decoder (pcm_samples_per_packet codec)
          (elim (peek_next receiver.jitter) [ none ↦ none | some p ↦ some p.payload ]) in
      (pcm, record receiver { decoder = decoder; recorder = record_rx receiver.recorder pcm })
  decode_packet receiver (byte ∷ payload) =
      let (pcm, decoder) = k.decode receiver.decoder (byte ∷ payload) in
      (pcm, record receiver { decoder = decoder; recorder = record_rx receiver.recorder pcm })

  unfoldable pub play_packet :
      Receiver f.Value k.Decoder
      → Option BufferedPacket
      → Option (List Sample) × Receiver f.Value k.Decoder
  unfolding decode_packet
  play_packet receiver none = (none, receiver)
  play_packet receiver (some packet) =
      let (pcm, after) = decode_packet receiver packet.payload in (some pcm, after)

  -- A tick: `none` where `pop_at` panics, or the samples for the speaker's queue, if any.
  unfoldable pub tick :
      Receiver f.Value k.Decoder → ℕ → Option (Option (List Sample) × Receiver f.Value k.Decoder)
  unfolding play_packet
  tick receiver now = elim (pop_at f receiver.jitter now) [
    | none ↦ none
    | some popped ↦ some (play_packet (record receiver { jitter = popped.1 }) popped.0)
  ]
