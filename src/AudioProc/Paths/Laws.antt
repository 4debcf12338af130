-- ===== src/AudioProc/Paths/Laws.antt =====
-- What the microphone's path of src/audio_proc/processor.rs does does not depend on its buffers.
use rtp_engine.Base.{
  ℕ, ◌<◌, ◌≡◌, refl, ap, true, false, Option, none, some, List, [], ◌++◌, ◌==◌, Bool-cases, arith,
  inl, inr,
}
use rtp_engine.AudioProc.Frame.{FrameAccumulator, push}
use rtp_engine.AudioProc.Frame
use rtp_engine.AudioProc.Frame.Chunks.{push-push}
use rtp_engine.AudioProc.Voice.{State, negotiating, active, disabled}
use rtp_engine.AudioProc.Paths.{AudioPath, new, process, process_framed}

-- Frames hold a sample at least, where there are frames.
abbrev pub IsFramed : {Real : Type 0} → Option (FrameAccumulator Real) → Type 0
IsFramed none = Unit
IsFramed (some accumulator) = 0 < accumulator.frame_len

-- A path of any rate.
pub new-IsFramed : (Real : Type 0) (rate : ℕ) → IsFramed (new {Real = Real} rate).accumulator
unfolding new Frame.new Frame.frame_len
new-IsFramed Real rate = ground arith

module _ {Real Backend : Type 0} (on_frame : Backend → List Real → Backend × List Real) where
  -- The audio, the processor and what is held back, of one call and of two.
  abbrev pub SameAs :
      List Real × State Backend × AudioPath Real
      → List Real
      → List Real × State Backend × AudioPath Real
      → Type 0
  SameAs (audio, state, path) audio_before (audio_after, state_after, path_after) =
      (audio ≡ audio_before ++ audio_after)
      × (state ≡ state_after)
      × (path.accumulator ≡ path_after.accumulator)

  -- A call that does not frame its input.
  abbrev Passes : State Backend → AudioPath Real → Type 0
  Passes state path = (input : List Real) → process on_frame state path input ≡ (input, state, path)

  -- A call that does.
  abbrev Framed : ℕ → Backend → AudioPath Real → FrameAccumulator Real → Type 0
  Framed rate backend path acc = (path.accumulator ≡ some acc) × ((rate == path.device_rate) ≡ true)

  framed_result :
      ℕ
      → Backend
      → AudioPath Real
      → FrameAccumulator Real
      → List Real
      → List Real × State Backend × AudioPath Real
  framed_result rate backend path acc input =
      let pushed = push on_frame acc input [] backend in
      (
        pushed.1,
        active rate pushed.2,
        record path { accumulator = some pushed.0; scratch = pushed.1 },
      )

  process-Framed :
      (rate : ℕ) (backend : Backend) (path : AudioPath Real) (acc : FrameAccumulator Real)
      (input : List Real)
      → Framed rate backend path acc
      → process on_frame (active rate backend) path input
        ≡ framed_result rate backend path acc input
  unfolding process process_framed framed_result
  process-Framed rate backend path acc input (framed, same) =
      simp (process, same) (ap (λ a. process_framed on_frame rate backend path a input) framed)

  process-elsewhere :
      (rate : ℕ) (backend : Backend) (path : AudioPath Real)
      → (rate == path.device_rate) ≡ false
      → Passes (active rate backend) path
  unfolding process
  process-elsewhere rate backend path other input = simp (process, other)

  process-unframed :
      (rate : ℕ) (backend : Backend) (path : AudioPath Real)
      → path.accumulator ≡ none
      → (rate == path.device_rate) ≡ true
      → Passes (active rate backend) path
  unfolding process process_framed
  process-unframed rate backend path unframed same input =
      simp (process, same) (ap (λ a. process_framed on_frame rate backend path a input) unframed)

  Passes-SameAs :
      (state : State Backend) (path : AudioPath Real) (xs ys : List Real)
      → Passes state path
      → let first = process on_frame state path xs in
        SameAs
          (process on_frame state path (xs ++ ys))
          first.0
          (process on_frame first.1 first.2 ys)
  Passes-SameAs state path xs ys passes =
      rw (passes (xs ++ ys), passes xs, passes ys) (refl, refl, refl)

  Framed-SameAs :
      (rate : ℕ) (backend : Backend) (path : AudioPath Real) (acc : FrameAccumulator Real)
      (xs ys : List Real)
      → Framed rate backend path acc
      → 0 < acc.frame_len
      → let first = process on_frame (active rate backend) path xs in
        SameAs
          (process on_frame (active rate backend) path (xs ++ ys))
          first.0
          (process on_frame first.1 first.2 ys)
  unfolding framed_result push
  Framed-SameAs rate backend path acc xs ys framed positive =
      let whole = push-push on_frame acc xs ys [] backend positive in
      let first = push on_frame acc xs [] backend in
      let after : AudioPath Real = record path { accumulator = some first.0; scratch = first.1 } in
      rw
        (
          process-Framed rate backend path acc (xs ++ ys) framed,
          process-Framed rate backend path acc xs framed,
          process-Framed rate first.2 after first.0 ys (refl, framed.1),
        )
        (ap (λ r. r.1) whole, ap (λ r. active rate r.2) whole, ap (λ r. some r.0) whole)

  active-SameAs :
      (rate : ℕ) (backend : Backend) (path : AudioPath Real)
      (accumulator : Option (FrameAccumulator Real)) (xs ys : List Real)
      → path.accumulator ≡ accumulator
      → IsFramed accumulator
      → (rate == path.device_rate) ≡ true
      → let first = process on_frame (active rate backend) path xs in
        SameAs
          (process on_frame (active rate backend) path (xs ++ ys))
          first.0
          (process on_frame first.1 first.2 ys)
  active-SameAs rate backend path none xs ys e framed same =
      Passes-SameAs (active rate backend) path xs ys (process-unframed rate backend path e same)
  active-SameAs rate backend path (some acc) xs ys e framed same =
      Framed-SameAs rate backend path acc xs ys (e, same) framed

  -- Two buffers of the microphone, one after the other, return the audio that they return as one
  -- buffer, and leave the same processor and the same samples held back, whatever state the
  -- processor is in and whatever the backend does to a frame.
  pub process-process :
      (state : State Backend) (path : AudioPath Real) (xs ys : List Real)
      → IsFramed path.accumulator
      → let whole = process on_frame state path (xs ++ ys) in
        let first = process on_frame state path xs in
        let second = process on_frame first.1 first.2 ys in
        (whole.0 ≡ first.0 ++ second.0)
        × (whole.1 ≡ second.1)
        × (whole.2.accumulator ≡ second.2.accumulator)
  unfolding process
  process-process (negotiating c r) path xs ys framed = (refl, refl, refl)
  process-process disabled path xs ys framed = (refl, refl, refl)
  process-process (active rate backend) path xs ys framed =
      elim (Bool-cases (rate == path.device_rate)) [
        | inl same ↦ active-SameAs rate backend path path.accumulator xs ys refl framed same
        | inr other ↦
            Passes-SameAs (active rate backend) path xs ys
              (process-elsewhere rate backend path other)
      ]
