-- ===== src/AudioProc/Frame/Chunks.antt =====
-- FrameAccumulator of src/audio_proc/frame.rs cuts the same frames however its input is divided.
use rtp_engine.Base.{◌<◌, ◌≡◌, ap, sym, ◌∙◌, List, ◌++◌, append_assoc}
use rtp_engine.AudioProc.Frame.{FrameAccumulator, push}
use rtp_engine.Base.Drain.{Drained, drain, drain-append}

module _ {Sample State : Type 0} (on_frame : State → List Sample → State × List Sample) where
  -- Pushing two pieces of input one after the other leaves the same accumulator, output and state of
  -- the closure as pushing them in one, for frames of at least one sample and any closure: the
  -- frames do not depend on how the input is divided.
  pub push-push :
      (acc : FrameAccumulator Sample) (xs ys out : List Sample) (state : State)
      → 0 < acc.frame_len
      → push on_frame acc (xs ++ ys) out state
        ≡ push on_frame
            (push on_frame acc xs out state).0
            ys
            (push on_frame acc xs out state).1
            (push on_frame acc xs out state).2
  unfolding push
  push-push acc xs ys out state positive =
      let size = acc.frame_len in
      let held = acc.pending ++ xs in
      let first = drain on_frame size held state in
      let last = drain on_frame size (first.1 ++ ys) first.2 in
      let finish : Drained on_frame → FrameAccumulator Sample × List Sample × State =
        λ e. (record acc { pending = e.1 }, out ++ e.0, e.2) in
      ap (λ p. finish (drain on_frame size p state)) (sym (append_assoc acc.pending xs ys))
      ∙ ap finish (drain-append on_frame size held ys state positive)
      ∙ ap (λ o. (record acc { pending = last.1 }, o, last.2))
          (sym (append_assoc out first.0 last.0))
