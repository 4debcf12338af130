-- ===== src/Stream/Passage.antt =====
-- Audio from one stream to another: `packetize` and `ingest` of src/stream.rs.
use rtp_engine.Base.{
  ℕ, ◌<◌, ◌≡◌, refl, ap, ◌∙◌, Bool, true, false, none, some, List, [], ◌∷◌, ◌++◌, arith, length,
  if◌then◌else◌, ◌⊎◌, IsU16, IsU32,
}
use rtp_engine.Base.Float.{F64}
use rtp_engine.Base.Net.{SocketAddr}
use rtp_engine.Error.{Result, ok, err}
use rtp_engine.Codec.Types.{pcm_samples_per_packet}
use rtp_engine.Codec.G711.{Sample}
use rtp_engine.Codec.Coder.{Coders}
use rtp_engine.Rtp.Header
use rtp_engine.Rtp.Header.{RtpHeader, with_marker, to_bytes, header_length}
use rtp_engine.Srtp.Crypto.{Crypto}
use rtp_engine.Jitter.Arrival.{push_at}
use rtp_engine.Stream.State.{StreamCore, Verdict, accepted, dropped, Core}
use rtp_engine.Stream.Sending.{begin_digit, send_audio, send_next, pace, packetize}
use rtp_engine.Stream.Arrival.{is_expected, admit, ingest, tally, start_clock}
use rtp_engine.Stream.DigitPacket.{finish-plain, packetize-sized}
use rtp_engine.Stream.AudioPacket.{audio_header, IsAudio, admit-audio}

marked_header :
    (pt seq timestamp ssrc : ℕ) (marker : Bool)
    → (if marker
        then with_marker (Header.new pt seq timestamp ssrc)
        else Header.new pt seq timestamp ssrc)
      ≡ audio_header pt seq timestamp ssrc marker
unfolding with_marker Header.new
marked_header pt seq timestamp ssrc true = refl
marked_header pt seq timestamp ssrc false = refl

module _ {Float Encoder Decoder : Type 0} where
  tally-accepted :
      (result : StreamCore Float Encoder Decoder × Verdict)
      → result.1 ≡ accepted none
      → tally result ≡ result
  unfolding tally
  tally-accepted (core, accepted event) e = refl
  tally-accepted (core, dropped reason) e = absurd (ground arith)

  start_clock-fields :
      (core : StreamCore Float Encoder Decoder) (now : ℕ)
      → ((start_clock core now).config ≡ core.config)
        × ((start_clock core now).srtp ≡ core.srtp)
        × ((start_clock core now).stats ≡ core.stats)
        × ((start_clock core now).jitter ≡ core.jitter)
        × ((start_clock core now).remote_ssrc ≡ core.remote_ssrc)
  unfolding start_clock
  start_clock-fields core now = ground arith

module _ (f : F64) (k : Coders) where
  module _ (c : Crypto) where
    -- The datagram of an audio frame.
    abbrev pub audio_datagram : Core f k → List Sample → List ℕ
    audio_datagram s pcm =
        to_bytes (audio_header s.config.payload_type s.seq s.timestamp s.ssrc s.marker)
        ++ (k.encode s.encoder pcm).0

    pace-result : (sent : Core f k × Result (List (List ℕ))) → (pace f k c sent).1 ≡ sent.1
    unfolding pace
    pace-result (core, ok datagrams) = refl
    pace-result (core, err e) = refl

    packetize-audio :
        (s : Core f k) (pcm : List Sample)
        → s.srtp ≡ none
        → s.dtmf_sending ≡ none
        → s.dtmf ≡ []
        → length pcm ≡ pcm_samples_per_packet s.config.codec
        → (packetize f k c s pcm).1 ≡ ok (audio_datagram s pcm ∷ [])
    unfolding begin_digit send_next send_audio pace
    packetize-audio s pcm plain idle empty sized =
        let encoded = k.encode s.encoder pcm in
        let header = marked_header s.config.payload_type s.seq s.timestamp s.ssrc s.marker in
        let sent =
          finish-plain f k c (record s { encoder = encoded.1; marker = false })
            (audio_header s.config.payload_type s.seq s.timestamp s.ssrc s.marker) encoded.0
            plain in
        let begun : begin_digit s ≡ s = simp (begin_digit, idle, empty) in
        let audio : send_next f k c s pcm ≡ send_audio f k c s pcm = simp (send_next, idle) in
        let first : (send_audio f k c s pcm).1 ≡ ok (audio_datagram s pcm ∷ []) =
          simp (send_audio, plain, header) in
        ap (λ r. r.1)
          (packetize-sized f k c s pcm sized
            ∙ ap (λ b. pace f k c (send_next f k c b pcm)) begun
            ∙ ap (pace f k c) audio)
        ∙ pace-result (send_audio f k c s pcm)
        ∙ first

    -- A receiver that takes the sender's audio: the same payload type, not one that RTCP may have, an
    -- expected source, and the sender's SSRC if it knows one.
    pub record Receives (r s : Core f k) (from : SocketAddr) : Type 0 where
      pub typed : IsAudio r.config s.config.payload_type
      pub no_rtcp : (s.config.payload_type < 72) ⊎ (76 < s.config.payload_type)
      pub plain : r.srtp ≡ none
      pub expected : is_expected r.stats.latched false r.config.remote from ≡ true
      pub same_source : (r.remote_ssrc ≡ none) ⊎ (r.remote_ssrc ≡ some s.ssrc)

    -- The fields that the sender writes fit their widths.
    pub record Fits (s : Core f k) : Type 0 where
      pub type_fits : s.config.payload_type < 128
      pub seq_fits : IsU16 s.seq
      pub timestamp_fits : IsU32 s.timestamp
      pub ssrc_fits : IsU32 s.ssrc

    -- Without SRTP, a sender with no digit to send makes one datagram of a frame of full size, and a
    -- receiver that takes its audio accepts that datagram: the encoded frame goes into its jitter
    -- buffer under the sender's sequence number and timestamp.
    pub audio_passes :
        (s r : Core f k) (pcm : List Sample) (from : SocketAddr) (now : ℕ)
        → s.srtp ≡ none
        → s.dtmf_sending ≡ none
        → s.dtmf ≡ []
        → length pcm ≡ pcm_samples_per_packet s.config.codec
        → Fits s
        → Receives r s from
        → ((packetize f k c s pcm).1 ≡ ok (audio_datagram s pcm ∷ []))
          × ((ingest f k c r (audio_datagram s pcm) from now).1 ≡ accepted none)
          × ((ingest f k c r (audio_datagram s pcm) from now).0.jitter
              ≡ (push_at f r.jitter s.seq s.timestamp (k.encode s.encoder pcm).0 now).1)
    unfolding ingest Header.new
    audio_passes s r pcm from now plain idle empty sized fits takes =
        let started = start_clock r now in
        let (config, srtp, stats, jitter, ssrc) = start_clock-fields r now in
        let payload = (k.encode s.encoder pcm).0 in
        let (verdict, buffered) =
          admit-audio f k c started s.config.payload_type s.seq s.timestamp s.ssrc s.marker payload
            from now (srtp ∙ takes.plain) (rw (stats, config) takes.expected) fits.type_fits
            fits.seq_fits fits.timestamp_fits fits.ssrc_fits takes.no_rtcp (rw config takes.typed)
            (rw ssrc takes.same_source) in
        let same = tally-accepted (admit f k c started (audio_datagram s pcm) from now) verdict in
        (
          packetize-audio s pcm plain idle empty sized,
          ap (λ x. x.1) same ∙ verdict,
          ap (λ x. x.0.jitter) same
              ∙ buffered
              ∙ ap (λ j. (push_at f j s.seq s.timestamp payload now).1) jitter,
        )
