-- ===== src/AudioProc/Frame.antt =====
-- FrameAccumulator of src/audio_proc/frame.rs. The closure `on_frame` is a function from its state
-- and a frame to its new state and the frame as it leaves it.
pub mod Laws
pub mod Chunks
mod Tests
use rtp_engine.Base.{
  ℕ, zero, suc, ◌+◌, ◌-◌, ◌*◌, ◌/◌, Bool, ◌||◌, List, [], ◌∷◌, ◌++◌, Option, none, some, leb, ltb,
  ◌==◌, if◌then◌else◌, length, take, drop,
}
use rtp_engine.Base.Drain.{drain}

abbrev pub frame_ms : ℕ
frame_ms = 10

unfoldable pub frame_len : ℕ → ℕ
frame_len rate_hz = rate_hz * frame_ms / 1000

pub record FrameAccumulator (Sample : Type 0) : Type 0 where
  pub frame_len : ℕ
  pub pending : List Sample

module _ {Sample : Type 0} where
  unfoldable pub new : ℕ → Option (FrameAccumulator Sample)
  unfolding frame_len
  new rate_hz =
      if rate_hz == 8000 || (rate_hz == 16000 || (rate_hz == 32000 || rate_hz == 48000))
      then some (record { frame_len = frame_len rate_hz; pending = [] })
      else none

  unfoldable pub pending_len : FrameAccumulator Sample → ℕ
  pending_len acc = length acc.pending

  unfoldable pub reset : FrameAccumulator Sample → FrameAccumulator Sample
  reset acc = record acc { pending = [] }

  module _ {State : Type 0} (on_frame : State → List Sample → State × List Sample) where
    -- The accumulator, the output with what was appended, and the state of the closure.
    unfoldable pub push :
        FrameAccumulator Sample
        → List Sample
        → List Sample
        → State
        → FrameAccumulator Sample × List Sample × State
    unfolding drain
    push acc input out state =
        let pending = acc.pending ++ input in
        let (emitted, tail, last) = drain on_frame acc.frame_len pending state in
        (record acc { pending = tail }, out ++ emitted, last)
