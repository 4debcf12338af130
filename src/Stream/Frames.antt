-- ===== src/Stream/Frames.antt =====
-- The frames that come out of a stream (`playout` of src/stream.rs).
use rtp_engine.Base.{ℕ, ◌≤◌, ◌≡◌, Bool, true, false, ◌||◌, not, List, [], ◌∷◌, ◌⊎◌, length}
use rtp_engine.Base.Float.{F64}
use rtp_engine.Codec.Types.{pcm_samples_per_packet}
use rtp_engine.Codec.Coder.{Coders}
use rtp_engine.Stream.State.{StreamEvent, AudioFrame, frame, timeout, Core}

-- A timeout report, of a silence that has lasted that long, or nothing.
abbrev pub Reports : ℕ → List StreamEvent → Type 0
Reports rtp_timeout reports =
    (reports ≡ [])
    ⊎ ((silent_for : ℕ) × (reports ≡ timeout silent_for ∷ []) × (rtp_timeout ≤ silent_for))

-- One frame of that many samples where audio plays, and nothing where it does not.
abbrev pub Plays : ℕ → Bool → List StreamEvent → Type 0
Plays samples playing frames =
    ((playing ≡ false) × (frames ≡ []))
    ⊎ ((playing ≡ true) × (a : AudioFrame) × (frames ≡ frame a ∷ []) × (length a.pcm ≡ samples))

module _ (f : F64) (k : Coders) where
  -- A tick's frame.
  abbrev Ticks : Core f k → List StreamEvent → Core f k → Type 0
  Ticks core frames after =
      Plays (pcm_samples_per_packet core.config.codec) after.playing frames
      × ((not core.playing || after.playing) ≡ true)
