-- ===== src/AudioProc/Paths.antt =====
-- CapturePath and RenderPath of src/audio_proc/processor.rs, built with the feature `audio-proc`. The
-- processor that they share goes into a call and comes out of it. What the backend does to a frame,
-- where it fails as well, is a parameter, and so is what it learns of a frame that is played.
pub mod Laws
mod Tests
use rtp_engine.Base.{ℕ, Bool, not, Option, none, some, List, [], ◌==◌, if◌then◌else◌}
use rtp_engine.AudioProc.Config.{VoiceProcessorConfig, is_any_enabled}
use rtp_engine.AudioProc.Frame.{FrameAccumulator, push, reset}
use rtp_engine.AudioProc.Frame
use rtp_engine.AudioProc.Voice.{Side, State, negotiating, active, disabled, attach}
use rtp_engine.AudioProc.Voice

-- `VoiceProcessor::new`
unfoldable pub voice_processor : {Backend : Type 0} → VoiceProcessorConfig → State Backend
voice_processor config = Voice.new (is_any_enabled config)

-- Either path.
pub record AudioPath (Real : Type 0) : Type 0 where
  pub accumulator : Option (FrameAccumulator Real)
  pub device_rate : ℕ
  pub scratch : List Real

unfoldable pub new : {Real : Type 0} → ℕ → AudioPath Real
new device_rate = record {
  accumulator = Frame.new device_rate;
  device_rate = device_rate;
  scratch = [];
}

unfoldable pub reset_accumulator :
    {Real : Type 0} → Option (FrameAccumulator Real) → Option (FrameAccumulator Real)
reset_accumulator none = none
reset_accumulator (some accumulator) = some (reset accumulator)

unfoldable pub reset_path : {Real : Type 0} → AudioPath Real → AudioPath Real
unfolding reset_accumulator
reset_path path = record path { accumulator = reset_accumulator path.accumulator; scratch = [] }

module _ {Real Backend : Type 0} where
  -- `capture_path` and `render_path`
  unfoldable pub open_path :
      (ℕ → Option Backend)
      → (Backend → Backend)
      → State Backend
      → Side
      → ℕ
      → State Backend × AudioPath Real
  unfolding attach new
  open_path build reinitialize state side device_rate =
      (attach build reinitialize state side device_rate, new device_rate)

  module _ (on_frame : Backend → List Real → Backend × List Real) where
    -- `process` once the state and the accumulator are there.
    unfoldable pub process_framed :
        ℕ
        → Backend
        → AudioPath Real
        → Option (FrameAccumulator Real)
        → List Real
        → List Real × State Backend × AudioPath Real
    process_framed rate backend path none input = (input, active rate backend, path)
    process_framed rate backend path (some accumulator) input =
        let (held, out, after) = push on_frame accumulator input [] backend in
        (out, active rate after, record path { accumulator = some held; scratch = out })

    -- The audio that is returned, the processor and the path.
    unfoldable pub process :
        State Backend → AudioPath Real → List Real → List Real × State Backend × AudioPath Real
    unfolding process_framed
    process (active rate backend) path input =
        if not (rate == path.device_rate)
        then (input, active rate backend, path)
        else process_framed rate backend path path.accumulator input
    process (negotiating c r) path input = (input, negotiating c r, path)
    process disabled path input = (input, disabled, path)

  module _ (analyze_render_frame : Backend → List Real → Backend) where
    -- `analyze`, whose closure leaves a frame as it is.
    unfoldable pub analyze_framed :
        ℕ
        → Backend
        → AudioPath Real
        → Option (FrameAccumulator Real)
        → List Real
        → State Backend × AudioPath Real
    analyze_framed rate backend path none played = (active rate backend, path)
    analyze_framed rate backend path (some accumulator) played =
        let (held, out, after) =
          push (λ b frame. (analyze_render_frame b frame, frame)) accumulator played [] backend in
        (active rate after, record path { accumulator = some held; scratch = out })

    unfoldable pub analyze :
        State Backend → AudioPath Real → List Real → State Backend × AudioPath Real
    unfolding analyze_framed
    analyze (active rate backend) path played =
        if not (rate == path.device_rate)
        then (active rate backend, path)
        else analyze_framed rate backend path path.accumulator played
    analyze (negotiating c r) path played = (negotiating c r, path)
    analyze disabled path played = (disabled, path)
