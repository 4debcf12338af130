-- ===== src/AudioProc/Frame/Tests.antt =====
-- A frame accumulator on seven numbers.
use rtp_engine.Base.{◌+◌, ℕ, ◌≡◌, refl, List, [], ◌∷◌, suc}
use rtp_engine.AudioProc.Frame.{FrameAccumulator, push}

-- Counts the frames.
abbrev counting : ℕ → List ℕ → ℕ × List ℕ
counting n frame = (suc n, frame)

abbrev three_a_frame : FrameAccumulator ℕ
three_a_frame = record { frame_len = 3; pending = 1 ∷ 2 ∷ [] }

two_frames :
    push counting three_a_frame (3 ∷ 4 ∷ 5 ∷ 6 ∷ 7 ∷ []) [] 0
    ≡ (record { frame_len = 3; pending = 7 ∷ [] }, 1 ∷ 2 ∷ 3 ∷ 4 ∷ 5 ∷ 6 ∷ [], 2)
unfolding push
two_frames = refl

-- Adds a running number to the first sample of each frame.
abbrev marking : ℕ → List ℕ → ℕ × List ℕ
marking n [] = (suc n, [])
marking n (first ∷ rest) = (suc n, (first + n) ∷ rest)
