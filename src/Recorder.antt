-- ===== src/Recorder.antt =====
-- CallRecorder of src/recorder.rs. A handle is its recorder and a channel: the flag and the samples
-- that it shares. A file is the bytes that are written to it; the path, and what the file system
-- refuses, is left out.
pub mod Wav
pub mod Reader
pub mod Laws
mod Tests
use rtp_engine.Base.{ℕ, Bool, true, false, Option, none, some, List, [], ◌∷◌, ◌++◌, if◌then◌else◌}
use rtp_engine.Codec.G711.{Sample}
use rtp_engine.Base.Float.{F64}
use rtp_engine.Resample.{F32, f32_to_i16}
use rtp_engine.Recorder.Wav.{wav_bytes}

pub record CallRecorder : Type 0 where
  pub recording : Bool
  pub tx_samples : List Sample
  pub rx_samples : List Sample
  pub sample_rate : ℕ

unfoldable pub new : ℕ → CallRecorder
new sample_rate = record {
  recording = false;
  tx_samples = [];
  rx_samples = [];
  sample_rate = sample_rate;
}

unfoldable pub start : CallRecorder → CallRecorder
start recorder = record recorder { recording = true }

-- `add_samples` of `tx_handle` and of `rx_handle`.
unfoldable pub add_tx : CallRecorder → List Sample → CallRecorder
add_tx recorder samples =
    if recorder.recording
    then record recorder { tx_samples = recorder.tx_samples ++ samples }
    else recorder

unfoldable pub add_rx : CallRecorder → List Sample → CallRecorder
add_rx recorder samples =
    if recorder.recording
    then record recorder { rx_samples = recorder.rx_samples ++ samples }
    else recorder

-- The file, `none` where nothing was recorded and no file is written.
unfoldable pub write_wav : CallRecorder → Option (List ℕ)
write_wav recorder = file recorder.tx_samples recorder.rx_samples recorder.sample_rate
  where
    file : List Sample → List Sample → ℕ → Option (List ℕ)
    file [] [] sample_rate = none
    file tx rx sample_rate = some (wav_bytes tx rx sample_rate)

unfoldable pub stop : CallRecorder → CallRecorder × Option (List ℕ)
unfolding write_wav
stop recorder = let stopped = record recorder { recording = false } in (stopped, write_wav stopped)

-- `drop`: a recorder that is still running is stopped, and its file written.
unfoldable pub drop_recorder : CallRecorder → Option (List ℕ)
unfolding stop
drop_recorder recorder = if recorder.recording then (stop recorder).1 else none

-- `add_samples_f32`, whose conversion is the one of `f32_to_i16`.
module _ (f : F64) (r : F32 f) where
  unfoldable pub add_tx_f32 : CallRecorder → List r.Real → CallRecorder
  unfolding add_tx f32_to_i16
  add_tx_f32 recorder samples =
      if recorder.recording then add_tx recorder (f32_to_i16 f r samples) else recorder

  unfoldable pub add_rx_f32 : CallRecorder → List r.Real → CallRecorder
  unfolding add_rx f32_to_i16
  add_rx_f32 recorder samples =
      if recorder.recording then add_rx recorder (f32_to_i16 f r samples) else recorder
