-- ===== src/Stream/AudioPacket.antt =====
-- An audio packet at the receiver: `admit` of src/stream.rs on a packet that is well-formed.
use rtp_engine.Base.{
  ℕ, ◌-◌, ◌/◌, ◌%◌, ◌≤◌, ◌<◌, ◌≡◌, refl, ap, sym, subst, ◌∙◌, Bool, true, false, ◌&&◌, none, some,
  List, ◌++◌, arith, length, slice, take, drop-append, take_all, leb, ltb, ◌==◌, ==_iff, ◌⊎◌,
  length-append, byte_at, IsU16, IsU32,
}
use rtp_engine.Base.Float.{F64}
use rtp_engine.Base.Net.{SocketAddr}
use rtp_engine.Codec.Coder.{Coders}
use rtp_engine.Rtp.Header
use rtp_engine.Rtp.Header.{RtpHeader, with_marker, to_bytes, header_length}
use rtp_engine.Rtp.Header.RoundTrip.{IsValid, parse-to_bytes, length-to_bytes}
use rtp_engine.Srtp.Crypto.{Crypto}
use rtp_engine.Jitter.Arrival.{push_at}
use rtp_engine.Stream.State.{StreamConfig, Verdict, accepted, Core}
use rtp_engine.Stream.Arrival.{
  is_expected, payload_end, payload_of, is_dtmf, latch, change_source, note_packet, accept,
  admit_clear, admit_opened, admit,
}

-- The header of an audio packet.
abbrev pub audio_header : ℕ → ℕ → ℕ → ℕ → Bool → RtpHeader
audio_header pt seq timestamp ssrc marker = record (Header.new pt seq timestamp ssrc) {
  marker = marker;
}

pub audio_header-IsValid :
    (pt seq timestamp ssrc : ℕ) (marker : Bool)
    → pt < 128
    → IsU16 seq
    → IsU32 timestamp
    → IsU32 ssrc
    → IsValid (audio_header pt seq timestamp ssrc marker)
unfolding Header.new
audio_header-IsValid pt seq timestamp ssrc marker a b d e = record {
  version_two = refl;
  count = refl;
  few = omega arith;
  type_fits = a;
  sequence_fits = b;
  timestamp_fits = d;
  ssrc_fits = e;
  csrc_fit = tt;
  extension_fits = refl;
}

payload_of-to_bytes :
    (h : RtpHeader) (payload : List ℕ)
    → h.padding ≡ false
    → payload_of h (to_bytes h ++ payload) ≡ some payload
unfolding payload_of
payload_of-to_bytes h payload unpadded =
    let bytes = to_bytes h ++ payload in
    let total = length-append (to_bytes h) payload in
    let len = length-to_bytes h in
    let found : slice (header_length h) (length bytes) bytes ≡ payload =
      ap (take (length bytes - header_length h))
        (drop-append (to_bytes h) payload (header_length h) (sym len))
      ∙ take_all payload (length bytes - header_length h) (omega (arith, total, len)) in
    let ended : payload_end h bytes ≡ some (length bytes) = simp (payload_end, unpadded) in
    let inside : leb (header_length h) (length bytes) ≡ true = ground (arith, total, len) in
    let within : leb (length bytes) (length bytes) ≡ true = ground arith in
    simp (payload_of, ended, inside, within, found)

byte1_type :
    (pt seq timestamp ssrc : ℕ) (marker : Bool)
    → pt < 128
    → Header.byte1 (audio_header pt seq timestamp ssrc marker) % 128 ≡ pt
unfolding Header.byte1 Header.new
byte1_type pt seq timestamp ssrc true small = omega arith
byte1_type pt seq timestamp ssrc false small = omega arith

-- What makes a packet audio for a stream.
abbrev pub IsAudio : StreamConfig → ℕ → Type 0
IsAudio config pt = (pt ≡ config.payload_type) × (is_dtmf config pt ≡ false)

module _ (f : F64) (k : Coders) where
  -- The audio reaches the jitter buffer.
  abbrev pub Buffers : Core f k → (Core f k × Verdict) → RtpHeader → List ℕ → ℕ → Type 0
  Buffers core result h payload now =
      (result.1 ≡ accepted none)
      × (result.0.jitter ≡ (push_at f core.jitter h.sequence h.timestamp payload now).1)

  accept-audio :
      (core : Core f k) (h : RtpHeader) (payload : List ℕ) (size : ℕ) (from : SocketAddr) (now : ℕ)
      → is_dtmf core.config h.payload_type ≡ false
      → (core.remote_ssrc ≡ none) ⊎ (core.remote_ssrc ≡ some h.ssrc)
      → Buffers core (accept f k core h payload size from now) h payload now
  unfolding accept latch change_source note_packet
  accept-audio core h payload size from now audio same = ground arith

  admit_clear-audio :
      (core : Core f k) (h : RtpHeader) (payload : List ℕ) (size : ℕ) (from : SocketAddr) (now : ℕ)
      → IsValid h
      → h.padding ≡ false
      → IsAudio core.config h.payload_type
      → (core.remote_ssrc ≡ none) ⊎ (core.remote_ssrc ≡ some h.ssrc)
      → Buffers core (admit_clear f k core (to_bytes h ++ payload) size from now) h payload now
  unfolding admit_clear
  admit_clear-audio core h payload size from now valid unpadded (typed, audio) same =
      let right : (h.payload_type == core.config.payload_type) ≡ true = (==_iff _ _).1 typed in
      let e : admit_clear f k core (to_bytes h ++ payload) size from now
          ≡ accept f k core h payload size from now =
        simp (
          admit_clear,
          parse-to_bytes h payload valid,
          payload_of-to_bytes h payload unpadded,
          right,
          audio,
        ) in
      subst (λ r. Buffers core r h payload now) (sym e)
        (accept-audio core h payload size from now audio same)

  module _ (c : Crypto) where
    admit-passes :
        (core : Core f k) (datagram : List ℕ) (pt : ℕ) (from : SocketAddr) (now : ℕ)
        → core.srtp ≡ none
        → is_expected core.stats.latched false core.config.remote from ≡ true
        → 12 ≤ length datagram
        → byte_at datagram 0 / 64 ≡ 2
        → byte_at datagram 1 % 128 ≡ pt
        → (pt < 72) ⊎ (76 < pt)
        → admit f k c core datagram from now
          ≡ admit_clear f k core datagram (length datagram) from now
    unfolding admit admit_opened
    admit-passes core datagram pt from now plain expected long version typed no_rtcp =
        let short : ltb (length datagram) 12 ≡ false = ground arith in
        let two : (byte_at datagram 0 / 64 == 2) ≡ true = (==_iff _ 2).1 version in
        let clear : (leb 72 (byte_at datagram 1 % 128) && leb (byte_at datagram 1 % 128) 76)
            ≡ false =
          ground arith in
        simp (admit, short, two, clear, plain, expected, admit_opened)

    pub admit-audio :
        (core : Core f k) (pt seq timestamp ssrc : ℕ) (marker : Bool) (payload : List ℕ)
        (from : SocketAddr) (now : ℕ)
        → core.srtp ≡ none
        → is_expected core.stats.latched false core.config.remote from ≡ true
        → pt < 128
        → IsU16 seq
        → IsU32 timestamp
        → IsU32 ssrc
        → (pt < 72) ⊎ (76 < pt)
        → IsAudio core.config pt
        → (core.remote_ssrc ≡ none) ⊎ (core.remote_ssrc ≡ some ssrc)
        → Buffers core
            (admit f k c core
              (to_bytes (audio_header pt seq timestamp ssrc marker) ++ payload)
              from
              now)
            (audio_header pt seq timestamp ssrc marker)
            payload
            now
    unfolding to_bytes Header.new
    admit-audio core pt seq timestamp ssrc marker payload from now plain expected small fits_seq
          fits_time fits_ssrc no_rtcp typed same =
        let h = audio_header pt seq timestamp ssrc marker in
        let packet = to_bytes h ++ payload in
        let byte : byte_at packet 1 % 128 ≡ pt = byte1_type pt seq timestamp ssrc marker small in
        subst (λ r. Buffers core r h payload now)
          (sym
            (admit-passes core packet pt from now plain expected (omega arith) refl byte no_rtcp))
          (admit_clear-audio core h payload (length packet) from now
            (audio_header-IsValid pt seq timestamp ssrc marker small fits_seq fits_time fits_ssrc)
            refl typed same)
