-- ===== src/Base/Drain.antt =====
-- The loop that cuts frames off the front of a list while a whole one is left, and hands each to a
-- closure.
pub mod Frames
use Prim.Native.Nat.{ℕ, zero, suc, ◌+◌, ◌≤◌, ◌<◌}
use mathlib.Core.Path.{◌≡◌, refl, ap, sym, ◌∙◌}
use mathlib.Core.Logic.{◌⊎◌, inl, inr}
use mathlib.Core.Bool.{true, false}
use mathlib.Core.List.{List, [], ◌∷◌, ◌++◌, append_assoc}
use native.Mathlib.Omega.{arith}
use rtp_engine.Base.Tests.{ltb, if◌then◌else◌}
use rtp_engine.Base.Lists.{length, take, drop, length-drop, length-append}

module _ {Sample : Type 0} where
  take_within : (n : ℕ) (xs ys : List Sample) → n ≤ length xs → take n (xs ++ ys) ≡ take n xs
  take_within zero xs ys h = refl
  take_within (suc n) [] ys h = absurd (omega arith)
  take_within (suc n) (x ∷ xs) ys h = ap (◌∷◌ x) (take_within n xs ys (omega arith))

  pub drop_within :
      (n : ℕ) (xs ys : List Sample) → n ≤ length xs → drop n (xs ++ ys) ≡ drop n xs ++ ys
  drop_within zero xs ys h = refl
  drop_within (suc n) [] ys h = absurd (omega arith)
  drop_within (suc n) (x ∷ xs) ys h = drop_within n xs ys (omega arith)

  pub shorter : (size : ℕ) (xs : List Sample) → (length xs < size) ⊎ (size ≤ length xs)
  shorter size xs = omega arith

module _ {Sample Out State : Type 0} (on_frame : State → List Sample → State × List Out) where
  -- The loop with the rounds left: what is appended to the output, what is left of the input, and
  -- the state of the closure.
  unfoldable pub drain_loop : ℕ → ℕ → List Sample → State → List Out × List Sample × State
  drain_loop zero size pending state = ([], pending, state)
  drain_loop (suc fuel) size pending state =
      let done = on_frame state (take size pending) in
      let (out, tail, last) = drain_loop fuel size (drop size pending) done.0 in
      if ltb (length pending) size then ([], pending, state) else (done.1 ++ out, tail, last)

  unfoldable pub drain : ℕ → List Sample → State → List Out × List Sample × State
  unfolding drain_loop
  drain size pending state = drain_loop (length pending) size pending state

  abbrev pub Drained : Type 0
  Drained = List Out × List Sample × State

  -- The result of a round and of what comes after it.
  abbrev pub after_round : List Out → Drained → Drained
  after_round frame rest = (frame ++ rest.0, rest.1, rest.2)

  -- A round of the loop, and its end.
  pub drain_loop-round :
      (fuel size : ℕ) (pending : List Sample) (state : State)
      → size ≤ length pending
      → drain_loop (suc fuel) size pending state
        ≡ after_round
            (on_frame state (take size pending)).1
            (drain_loop fuel size (drop size pending) (on_frame state (take size pending)).0)
  unfolding drain_loop
  drain_loop-round fuel size pending state h =
      let long : ltb (length pending) size ≡ false = ground arith in simp (drain_loop, long)

  pub drain_loop-end :
      (fuel size : ℕ) (pending : List Sample) (state : State)
      → length pending < size
      → drain_loop fuel size pending state ≡ ([], pending, state)
  unfolding drain_loop
  drain_loop-end zero size pending state h = refl
  drain_loop-end (suc fuel) size pending state h =
      let short : ltb (length pending) size ≡ true = ground arith in simp (drain_loop, short)

  -- Enough rounds are as good as any more.
  drain_loop-fuel :
      (fuel more size : ℕ) (pending : List Sample) (state : State)
      → 0 < size
      → length pending ≤ fuel
      → length pending ≤ more
      → drain_loop fuel size pending state ≡ drain_loop more size pending state
  drain_loop-fuel zero more size pending state positive enough enough_too =
      drain_loop-end zero size pending state (omega arith)
      ∙ sym (drain_loop-end more size pending state (omega arith))
  drain_loop-fuel (suc f) zero size pending state positive enough enough_too =
      drain_loop-end (suc f) size pending state (omega arith)
      ∙ sym (drain_loop-end zero size pending state (omega arith))
  drain_loop-fuel (suc f) (suc g) size pending state positive enough enough_too =
      elim (shorter size pending) [
        | inl short ↦
            drain_loop-end (suc f) size pending state short
            ∙ sym (drain_loop-end (suc g) size pending state short)
        | inr long ↦
            drain_loop-round f size pending state long
            ∙ ap (after_round (on_frame state (take size pending)).1) (
                drain_loop-fuel f g size (drop size pending) (on_frame state (take size pending)).0
                  positive (omega (arith, length-drop size pending))
                  (omega (arith, length-drop size pending)))
            ∙ sym (drain_loop-round g size pending state long)
      ]

  -- Emitting from `xs ++ ys` is emitting from `xs`, then from what is left followed by `ys`.
  drain_loop-append :
      (fuel more last size : ℕ) (xs ys : List Sample) (state : State)
      → 0 < size
      → length xs ≤ fuel
      → length (xs ++ ys) ≤ more
      → length (xs ++ ys) ≤ last
      → drain_loop more size (xs ++ ys) state
        ≡ after_round (drain_loop fuel size xs state).0 (
            drain_loop last size
              ((drain_loop fuel size xs state).1 ++ ys)
              (drain_loop fuel size xs state).2)
  drain_loop-append zero more last size xs ys state positive enough em el =
      rw (drain_loop-end zero size xs state (omega arith))
        (drain_loop-fuel more last size (xs ++ ys) state positive em el)
  drain_loop-append (suc f) zero last size xs ys state positive enough em el =
      let none_left : length xs < size = omega (arith, length-append xs ys) in
      rw (drain_loop-end (suc f) size xs state none_left)
        (drain_loop-fuel zero last size (xs ++ ys) state positive em el)
  drain_loop-append (suc f) (suc g) last size xs ys state positive enough em el =
      elim (shorter size xs) [
        | inl short ↦
            rw (drain_loop-end (suc f) size xs state short)
              (drain_loop-fuel (suc g) last size (xs ++ ys) state positive em el)
        | inr long ↦
            let cut : List Sample → List Sample → Drained = λ frame rest.
              after_round (on_frame state frame).1
                (drain_loop g size rest (on_frame state frame).0) in
            let then_ys : Drained → Drained =
              λ e. after_round e.0 (drain_loop last size (e.1 ++ ys) e.2) in
            let done = on_frame state (take size xs) in
            let rest = drain_loop f size (drop size xs) done.0 in
            let whole_length = length-append xs ys in
            let rest_length = length-append (drop size xs) ys in
            drain_loop-round g size (xs ++ ys) state (omega (arith, long, whole_length))
            ∙ ap (λ frame. cut frame (drop size (xs ++ ys))) (take_within size xs ys long)
            ∙ ap (cut (take size xs)) (drop_within size xs ys long)
            ∙ ap (after_round done.1) (
                drain_loop-append f g last size (drop size xs) ys done.0 positive
                  (omega (arith, length-drop size xs))
                  (omega (arith, length-drop size xs, whole_length, rest_length))
                  (omega (arith, length-drop size xs, whole_length, rest_length)))
            ∙ ap (λ out. (out, (then_ys rest).1, (then_ys rest).2))
                (sym (append_assoc done.1 rest.0 (drain_loop last size (rest.1 ++ ys) rest.2).0))
            ∙ ap then_ys (sym (drain_loop-round f size xs state long))
      ]

  length-drain_loop_le :
      (fuel size : ℕ) (pending : List Sample) (state : State)
      → length (drain_loop fuel size pending state).1 ≤ length pending
  unfolding drain_loop
  length-drain_loop_le zero size pending state = omega arith
  length-drain_loop_le (suc fuel) size pending state = ground (
    arith,
    length-drop size pending,
    length-drain_loop_le fuel size (drop size pending) (on_frame state (take size pending)).0,
  )

  drain_loop-short :
      (fuel size : ℕ) (pending : List Sample) (state : State)
      → 0 < size
      → length pending ≤ fuel
      → length (drain_loop fuel size pending state).1 < size
  unfolding drain_loop
  drain_loop-short zero size pending state positive enough = omega (arith, positive, enough)
  drain_loop-short (suc fuel) size pending state positive enough = ground (
    arith,
    length-drop size pending,
    drain_loop-short fuel size (drop size pending) (on_frame state (take size pending)).0 positive,
  )

  -- Draining `xs ++ ys` is draining `xs`, then what is left followed by `ys`.
  pub drain-append :
      (size : ℕ) (xs ys : List Sample) (state : State)
      → 0 < size
      → drain size (xs ++ ys) state
        ≡ after_round
            (drain size xs state).0
            (drain size ((drain size xs state).1 ++ ys) (drain size xs state).2)
  unfolding drain
  drain-append size xs ys state positive =
      let first = drain_loop (length xs) size xs state in
      let tail_length = length-drain_loop_le (length xs) size xs state in
      let both = length-append xs ys in
      let tail_both = length-append first.1 ys in
      drain_loop-append (length xs) (length (xs ++ ys)) (length (xs ++ ys)) size xs ys state
        positive (omega arith) (omega arith) (omega arith)
      ∙ ap (after_round first.0) (
          drain_loop-fuel (length (xs ++ ys)) (length (first.1 ++ ys)) size (first.1 ++ ys) first.2
            positive (omega (arith, tail_length, both, tail_both)) (omega arith))

  -- Less than a frame is left.
  pub drain-short :
      (size : ℕ) (pending : List Sample) (state : State)
      → 0 < size
      → length (drain size pending state).1 < size
  unfolding drain
  drain-short size pending state positive =
      drain_loop-short (length pending) size pending state positive (omega arith)
