-- ===== src/Stream/Playout.antt =====
-- The playout tick: `playout` of src/stream.rs. The result `none` is the panic of `clamp` in the
-- jitter buffer.
use rtp_engine.Base.{
  ℕ, ◌-◌, max, true, Option, none, some, List, [], ◌∷◌, ◌++◌, length, take, replicate, leb,
  if◌then◌else◌,
}
use rtp_engine.Base.Float.{F64}
use rtp_engine.Codec.Types.{pcm_samples_per_packet}
use rtp_engine.Codec.G711.{Sample, plus}
use rtp_engine.Codec.Coder.{Coders}
use rtp_engine.Jitter.State.{BufferedPacket, peek_next}
use rtp_engine.Jitter.Playout.{pop_at}
use rtp_engine.Stream.State.{
  StreamCore, StreamEvent, frame, timeout, FrameKind, received, concealed, silence, Core,
}
use rtp_engine.Stream.Arrival.{start_clock}

-- `pcm.resize(samples, 0)`
unfoldable pub resize : ℕ → List Sample → List Sample
resize samples pcm = take samples pcm ++ replicate (samples - length pcm) (plus 0)

module _ {Float Encoder Decoder : Type 0} where
  -- The timeout report, when it is due, and the core that remembers it.
  unfoldable pub check_timeout :
      StreamCore Float Encoder Decoder → ℕ → List StreamEvent × StreamCore Float Encoder Decoder
  check_timeout core now =
      let start : ℕ = elim core.started [ none ↦ now | some start ↦ start ] in
      let since : ℕ = elim core.last_packet [ none ↦ start | some last ↦ last ] in
      let reported : ℕ = elim core.last_timeout [ none ↦ since | some t ↦ max t since ] in
      if leb core.config.rtp_timeout (now - reported)
      then (timeout (now - since) ∷ [], record core { last_timeout = some now })
      else ([], core)

module _ (f : F64) (k : Coders) where
  -- A frame of the codec's size, and the decoder after it.
  unfoldable pub deliver : Core f k → FrameKind → List Sample × k.Decoder → StreamEvent × Core f k
  unfolding resize
  deliver core kind (pcm, decoder) = (
    frame (record { pcm = resize (pcm_samples_per_packet core.config.codec) pcm; kind = kind }),
    record core { decoder = decoder; playing = true },
  )

  -- The frame for the payload of a packet that was popped.
  unfoldable pub decode_payload : Core f k → List ℕ → StreamEvent × Core f k
  unfolding deliver
  decode_payload core [] = deliver core concealed (
      k.conceal_loss core.decoder (pcm_samples_per_packet core.config.codec)
        (elim (peek_next core.jitter) [ none ↦ none | some p ↦ some p.payload ]))
  decode_payload core (byte ∷ rest) = deliver core received (k.decode core.decoder (byte ∷ rest))

  -- The frame due at a tick, if there is one, for what the jitter buffer gave.
  unfoldable pub frame_for : Core f k → Option BufferedPacket → List StreamEvent × Core f k
  unfolding decode_payload
  frame_for core (some packet) =
      let (event, decoded) = decode_payload core packet.payload in (event ∷ [], decoded)
  frame_for core none =
      if core.playing
      then (
        frame (record {
          pcm = replicate (pcm_samples_per_packet core.config.codec) (plus 0);
          kind = silence;
        })
            ∷ [],
        core,
      )
      else ([], core)

  unfoldable pub next_frame : Core f k → ℕ → Option (List StreamEvent × Core f k)
  unfolding frame_for
  next_frame core now = elim (pop_at f core.jitter now) [
    | none ↦ none
    | some popped ↦ some (frame_for (record core { jitter = popped.1 }) popped.0)
  ]

  unfoldable pub playout : Core f k → ℕ → Option (List StreamEvent × Core f k)
  unfolding start_clock check_timeout next_frame
  playout core now =
      let (events, checked) = check_timeout (start_clock core now) now in
      elim (next_frame checked now) [
        | none ↦ none
        | some played ↦ some (events ++ played.0, played.1)
      ]
