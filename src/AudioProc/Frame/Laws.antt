-- ===== src/AudioProc/Frame/Laws.antt =====
-- What FrameAccumulator of src/audio_proc/frame.rs does with a stream of samples.
use rtp_engine.Base.{
  ℕ, zero, suc, ◌<◌, ◌≡◌, refl, ap, ◌∙◌, List, ◌++◌, length, take, drop, take-append-drop,
  append_assoc, ltb, Bool-cases, inl, inr,
}
use rtp_engine.AudioProc.Frame.{FrameAccumulator, push}
use rtp_engine.Base.Drain.{drain_loop, drain, drain-short}

module _ {Sample State : Type 0} (on_frame : State → List Sample → State × List Sample) where
  drain_loop-order :
      (fuel size : ℕ) (pending : List Sample) (state : State)
      → ((s : State) (frame : List Sample) → (on_frame s frame).1 ≡ frame)
      → (drain_loop on_frame fuel size pending state).0
          ++ (drain_loop on_frame fuel size pending state).1
        ≡ pending
  unfolding drain_loop
  drain_loop-order zero size pending state same = refl
  drain_loop-order (suc fuel) size pending state same =
      elim (Bool-cases (ltb (length pending) size)) [
        | inl short ↦ simp short refl
        | inr long ↦
            let state_after = (on_frame state (take size pending)).0 in
            simp (long, same)
              (append_assoc (take size pending) _ _
                ∙ ap (λ r. take size pending ++ r)
                    (drain_loop-order fuel size (drop size pending) state_after same)
                ∙ take-append-drop size pending)
      ]

  -- For a closure that leaves its frames as they are, after a push the output with the samples held
  -- back behind it is the output before, the samples held back before and the input, in this order,
  -- and fewer samples than a frame are held back, whatever the length of the input.
  pub push-order :
      (acc : FrameAccumulator Sample) (input out : List Sample) (state : State)
      → 0 < acc.frame_len
      → ((s : State) (frame : List Sample) → (on_frame s frame).1 ≡ frame)
      → ((push on_frame acc input out state).1 ++ (push on_frame acc input out state).0.pending
          ≡ out ++ (acc.pending ++ input))
        × (length (push on_frame acc input out state).0.pending < acc.frame_len)
  unfolding push drain
  push-order acc input out state positive same =
      let pending = acc.pending ++ input in
      (
        append_assoc out _ _
            ∙ ap (λ r. out ++ r)
                (drain_loop-order (length pending) acc.frame_len pending state same),
        drain-short on_frame acc.frame_len pending state positive,
      )
