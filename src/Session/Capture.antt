-- ===== src/Session/Capture.antt =====
-- The callback of the microphone in `run_audio_tx` of src/session.rs, with all that a sample goes
-- through, while the session runs. No mutex but that of the SRTP context is poisoned; the level meter is left out.
pub mod Buffers
mod Tests
use rtp_engine.Base.{ℕ, ◌+◌, ◌*◌, Bool, true, false, Option, List, [], ◌∷◌, ◌++◌, if◌then◌else◌}
use rtp_engine.Base.Drain.{drain}
use rtp_engine.Base.Float.{F64}
use rtp_engine.Codec.Types.{CodecType, pcm_rate, pcm_samples_per_packet}
use rtp_engine.Codec.G711.{Sample}
use rtp_engine.Codec.Coder.{Coders}
use rtp_engine.Resample.{F32, StreamResampler, f32_to_i16}
use rtp_engine.Resample
use rtp_engine.Srtp.Crypto.{Crypto}
use rtp_engine.AudioProc.Voice.{State}
use rtp_engine.AudioProc.Paths.{AudioPath, reset_path, process}
use rtp_engine.Session.Transmit.{Sender, send_samples}

module _ (f : F64) (r : F32 f) where
  -- `(samples_per_frame / resample_ratio).ceil()`
  unfoldable pub native_samples_per_frame : CodecType → ℕ → ℕ
  native_samples_per_frame codec native_rate =
      let resample_ratio = f.div (f.of_ℕ (pcm_rate codec)) (f.of_ℕ native_rate) in
      f.to_unsigned 18446744073709551615
        (r.ceil (f.div (f.of_ℕ (pcm_samples_per_packet codec)) resample_ratio))

  module _ (k : Coders) (Backend Async : Type 0) where
    -- What the loop over the frames of the device changes.
    pub record Outlet : Type 0 where
      pub resampler : StreamResampler f r Async
      pub pending : List Sample
      pub sender : Sender k.Encoder

    pub record Microphone : Type 0 where
      pub voice : State Backend
      pub path : AudioPath r.Real
      pub was_muted : Bool
      pub buffer : List r.Real
      pub outlet : Outlet

    -- After a mute the partial frame from before it is dropped.
    unfoldable pub unmuted : Microphone → Microphone
    unmuted mic =
        if mic.was_muted then record mic { was_muted = false; path = reset_path mic.path } else mic

    module _ (on_frame : Backend → List r.Real → Backend × List r.Real)
        (process_chunk : Async → List r.Real → Async × Option (List r.Real)) (codec : CodecType)
        (ssrc : ℕ) (c : Crypto) (native_frame : ℕ) where
      -- A frame of the device is resampled, and what is full of it is sent.
      unfoldable pub send_chunk : Outlet → List r.Real → Outlet × List (List ℕ)
      unfolding f32_to_i16
      send_chunk outlet chunk =
          let (resampled, resampler) = Resample.process f r process_chunk outlet.resampler chunk in
          let (datagrams, pending, sender) =
            send_samples k codec ssrc c outlet.sender outlet.pending (f32_to_i16 f r resampled) in
          (record { resampler = resampler; pending = pending; sender = sender }, datagrams)

      -- A callback that is not muted.
      unfoldable pub hear : Microphone → List r.Real → List (List ℕ) × Microphone
      unfolding send_chunk
      hear mic input =
          let (audio, voice, path) = process on_frame mic.voice mic.path input in
          let (datagrams, buffer, outlet) =
            drain send_chunk native_frame (mic.buffer ++ audio) mic.outlet in
          (datagrams, record mic { voice = voice; path = path; buffer = buffer; outlet = outlet })

      unfoldable pub callback : Bool → Microphone → List r.Real → List (List ℕ) × Microphone
      unfolding unmuted hear
      callback muted mic input =
          if muted then ([], record mic { was_muted = true }) else hear (unmuted mic) input
