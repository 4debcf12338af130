-- ===== src/Session/Capture/Buffers.antt =====
-- What `run_audio_tx` of src/session.rs sends does not depend on the buffers of the device.
use rtp_engine.Base.{
  ℕ, ◌<◌, ◌≡◌, refl, ap, sym, ◌∙◌, Bool, true, false, subst, Option, none, some, List, ◌++◌,
  append_assoc,
}
use rtp_engine.Base.Drain.{drain, drain-append}
use rtp_engine.Base.Float.{F64}
use rtp_engine.Codec.Types.{CodecType}
use rtp_engine.Codec.Coder.{Coders}
use rtp_engine.Resample.{F32}
use rtp_engine.Srtp.Crypto.{Crypto}
use rtp_engine.AudioProc.Frame.{FrameAccumulator, reset}
use rtp_engine.AudioProc.Paths.{reset_path, reset_accumulator, process}
use rtp_engine.AudioProc.Paths.Laws.{IsFramed, process-process}
use rtp_engine.Session.Capture.{Microphone, unmuted, send_chunk, hear, callback}

reset_accumulator-IsFramed :
    {Real : Type 0} (accumulator : Option (FrameAccumulator Real))
    → IsFramed accumulator
    → IsFramed (reset_accumulator accumulator)
unfolding reset_accumulator reset
reset_accumulator-IsFramed none framed = tt
reset_accumulator-IsFramed (some accumulator) framed = framed

module _ (f : F64) (r : F32 f) (k : Coders) (Backend Async : Type 0)
    (on_frame : Backend → List r.Real → Backend × List r.Real)
    (process_chunk : Async → List r.Real → Async × Option (List r.Real)) (codec : CodecType)
    (ssrc : ℕ) (c : Crypto) (native_frame : ℕ) where
  abbrev Mic : Type 0
  Mic = Microphone f r k Backend Async

  -- Two states that differ at most in the scratch buffer of the path.
  abbrev pub Alike : Microphone f r k Backend Async → Microphone f r k Backend Async → Type 0
  Alike mic other =
      (mic.voice ≡ other.voice)
      × (mic.path.accumulator ≡ other.path.accumulator)
      × (mic.was_muted ≡ other.was_muted)
      × (mic.buffer ≡ other.buffer)
      × (mic.outlet ≡ other.outlet)

  hear-hear :
      (mic : Mic) (xs ys : List r.Real)
      → 0 < native_frame
      → IsFramed mic.path.accumulator
      → let whole =
          hear f r k Backend Async on_frame process_chunk codec ssrc c native_frame mic
            (xs ++ ys) in
        let first =
          hear f r k Backend Async on_frame process_chunk codec ssrc c native_frame mic xs in
        let second =
          hear f r k Backend Async on_frame process_chunk codec ssrc c native_frame first.1 ys in
        (whole.0 ≡ first.0 ++ second.0) × Alike whole.1 second.1
  unfolding hear
  hear-hear mic xs ys positive framed =
      let (audio, voice, accumulator) = process-process on_frame mic.voice mic.path xs ys framed in
      let first = process on_frame mic.voice mic.path xs in
      let second = process on_frame first.1 first.2 ys in
      let on_chunk =
        send_chunk f r k Backend Async on_frame process_chunk codec ssrc c native_frame in
      let drained =
        ap (λ a. drain on_chunk native_frame (mic.buffer ++ a) mic.outlet) audio
        ∙ ap (λ p. drain on_chunk native_frame p mic.outlet)
            (sym (append_assoc mic.buffer first.0 second.0))
        ∙ drain-append on_chunk native_frame (mic.buffer ++ first.0) second.0 mic.outlet positive in
      (
        ap (λ d. d.0) drained,
        (voice, accumulator, refl, ap (λ d. d.1) drained, ap (λ d. d.2) drained),
      )

  unmuted-awake : (mic : Mic) → mic.was_muted ≡ false → unmuted f r k Backend Async mic ≡ mic
  unfolding unmuted
  unmuted-awake mic awake = simp (unmuted, awake) refl

  -- After `unmuted` the path is framed as before, and the mute is over.
  abbrev Awake : Mic → Type 0
  Awake mic = (mic.was_muted ≡ false) × IsFramed mic.path.accumulator

  unmuted-Awake :
      (mic : Mic) (muted : Bool)
      → mic.was_muted ≡ muted
      → IsFramed mic.path.accumulator
      → Awake (unmuted f r k Backend Async mic)
  unfolding unmuted reset_path
  unmuted-Awake mic true e framed =
      simp (unmuted, e) (refl, reset_accumulator-IsFramed mic.path.accumulator framed)
  unmuted-Awake mic false e framed = simp (unmuted, e) (refl, framed)

  -- Two buffers of the device, one after the other, send the datagrams that they send as one buffer,
  -- after a mute as well, and leave the same state: the voice processor, the samples held back, the
  -- resampler, and the sender with its numbers, encoder, SRTP context, counters and recording.
  pub callback-callback :
      (mic : Microphone f r k Backend Async) (xs ys : List r.Real)
      → 0 < native_frame
      → IsFramed mic.path.accumulator
      → let whole =
          callback f r k Backend Async on_frame process_chunk codec ssrc c native_frame false mic
            (xs ++ ys) in
        let first =
          callback f r k Backend Async on_frame process_chunk codec ssrc c native_frame false mic
            xs in
        let second =
          callback f r k Backend Async on_frame process_chunk codec ssrc c native_frame false
            first.1 ys in
        (whole.0 ≡ first.0 ++ second.0) × Alike whole.1 second.1
  unfolding callback
  callback-callback mic xs ys positive framed =
      let awake = unmuted f r k Backend Async mic in
      let (over, framed_after) = unmuted-Awake mic mic.was_muted refl framed in
      let hear_with = hear f r k Backend Async on_frame process_chunk codec ssrc c native_frame in
      let whole = hear_with awake (xs ++ ys) in
      let first = hear_with awake xs in
      let again : Mic → Type 0 =
        λ m. (whole.0 ≡ first.0 ++ (hear_with m ys).0) × Alike whole.1 (hear_with m ys).1 in
      subst again (sym (unmuted-awake first.1 over)) (hear-hear awake xs ys positive framed_after)
