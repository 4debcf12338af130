-- ===== src/Base/Drain/Frames.antt =====
-- The loop of Drain as a run over the frames that it cuts.
use Prim.Native.Nat.{ℕ, zero, suc, ◌≤◌, ◌<◌}
use mathlib.Core.Path.{◌≡◌, refl, ap, ◌∙◌}
use mathlib.Core.Logic.{inl, inr}
use mathlib.Core.List.{List, [], ◌∷◌, ◌++◌, append_assoc}
use native.Mathlib.Omega.{arith}
use rtp_engine.Base.Lists.{length, take, drop, length-take, length-drop, take-append-drop, All}
use rtp_engine.Base.Drain.{
  Drained, after_round, shorter, drain_loop, drain, drain_loop-round, drain_loop-end,
}

-- The frames one after the other.
abbrev pub joined {ℓ} : {A : Type ℓ} → List (List A) → List A
joined [] = []
joined (frame ∷ frames) = frame ++ joined frames

module _ {Sample Out State : Type 0} (on_frame : State → List Sample → State × List Out) where
  -- The closure on frame after frame.
  unfoldable pub run : State → List (List Sample) → List Out × State
  run state [] = ([], state)
  run state (frame ∷ frames) =
      let done = on_frame state frame in let rest = run done.0 frames in (done.1 ++ rest.0, rest.1)

  -- The frames of `pending`, all of `size`, that a result has been made of.
  abbrev pub Cut : ℕ → List Sample → State → Drained on_frame → List (List Sample) → Type 0
  Cut size pending state result frames =
      All (λ frame. length frame ≡ size) frames
      × (joined frames ++ result.1 ≡ pending)
      × (length result.1 < size)
      × (result.0 ≡ (run state frames).0)
      × (result.2 ≡ (run state frames).1)

  none-Cut :
      (size : ℕ) (pending : List Sample) (state : State)
      → length pending < size
      → Cut size pending state ([], pending, state) []
  unfolding run
  none-Cut size pending state short = (tt, refl, short, refl, refl)

  one_more-Cut :
      (size : ℕ) (pending : List Sample) (state : State) (rest : Drained on_frame)
      (frames : List (List Sample))
      → size ≤ length pending
      → Cut size (drop size pending) (on_frame state (take size pending)).0 rest frames
      → Cut size pending state
          (after_round on_frame (on_frame state (take size pending)).1 rest)
          (take size pending ∷ frames)
  unfolding run
  one_more-Cut size pending state rest frames long (sized, whole, short, out, last) =
      let count : length (take size pending) ≡ size = omega (arith, length-take size pending) in
      (
        (count, sized),
        append_assoc (take size pending) (joined frames) rest.1
            ∙ ap (take size pending ++◌) whole
            ∙ take-append-drop size pending,
        short,
        ap ((on_frame state (take size pending)).1 ++◌) out,
        last,
      )

  drain_loop-frames :
      (fuel size : ℕ) (pending : List Sample) (state : State)
      → 0 < size
      → length pending ≤ fuel
      → (frames : List (List Sample)) × Cut size pending state
          (drain_loop on_frame fuel size pending state)
          frames
  drain_loop-frames zero size pending state positive enough = (
    [],
    rw (drain_loop-end on_frame zero size pending state (omega arith))
        (none-Cut size pending state (omega arith)),
  )
  drain_loop-frames (suc fuel) size pending state positive enough =
      let (frames, cut) =
        drain_loop-frames fuel size (drop size pending) (on_frame state (take size pending)).0
          positive (omega (arith, length-drop size pending)) in
      elim (shorter size pending) [
        | inl short ↦ (
          [],
          rw (drain_loop-end on_frame (suc fuel) size pending state short)
              (none-Cut size pending state short),
        )
        | inr long ↦ (
          take size pending ∷ frames,
          rw (drain_loop-round on_frame fuel size pending state long)
              (one_more-Cut size pending state _ frames long cut),
        )
      ]

  -- Draining is a run over the frames, with less than a frame left.
  pub drain-frames :
      (size : ℕ) (pending : List Sample) (state : State)
      → 0 < size
      → (frames : List (List Sample)) × Cut size pending state
          (drain on_frame size pending state)
          frames
  unfolding drain
  drain-frames size pending state positive =
      drain_loop-frames (length pending) size pending state positive (omega arith)
