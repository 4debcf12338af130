-- ===== src/Resample/Laws.antt =====
-- A StreamResampler of src/resample.rs resamples a stream alike however it is cut.
use rtp_engine.Base.{
  ◌<◌, ◌≡◌, refl, ap, sym, ◌∙◌, true, false, List, [], ◌∷◌, ◌++◌, append-nil, append_assoc, ◌==◌,
  Bool-cases, inl, inr, Option,
}
use rtp_engine.Base.Drain.{Drained, drain, drain-append}
use rtp_engine.Base.Float.{F64}
use rtp_engine.Resample.{F32, StreamResampler, process, chunk_output}

module _ (f : F64) (r : F32 f) {Async : Type 0}
    (process_chunk : Async → List r.Real → Async × Option (List r.Real)) where
  abbrev drained : StreamResampler f r Async → List r.Real → List r.Real × StreamResampler f r Async
  drained self input =
      let done =
        drain (chunk_output f r process_chunk self.from_rate self.to_rate) self.chunk_size
          (self.remainder ++ input) self.resampler in
      (done.0, record self { resampler = done.2; remainder = done.1 })

  process-drained :
      (self : StreamResampler f r Async) (sample : r.Real) (input : List r.Real)
      → (self.from_rate == self.to_rate) ≡ false
      → process f r process_chunk self (sample ∷ input) ≡ drained self (sample ∷ input)
  unfolding process
  process-drained self sample input other = simp (process, other)

  process-nothing :
      (self : StreamResampler f r Async) → process f r process_chunk self [] ≡ ([], self)
  unfolding process
  process-nothing self = elim (Bool-cases (self.from_rate == self.to_rate)) [
    | inl same ↦ simp (process, same)
    | inr other ↦ simp (process, other)
  ]

  process-same :
      (self : StreamResampler f r Async) (input : List r.Real)
      → (self.from_rate == self.to_rate) ≡ true
      → process f r process_chunk self input ≡ (input, self)
  unfolding process
  process-same self input same = simp (process, same)

  drained-append :
      (self : StreamResampler f r Async) (xs ys : List r.Real)
      → 0 < self.chunk_size
      → let first = drained self xs in
        let second = drained first.1 ys in drained self (xs ++ ys) ≡ (first.0 ++ second.0, second.1)
  drained-append self xs ys positive =
      let on_chunk = chunk_output f r process_chunk self.from_rate self.to_rate in
      let finish : Drained on_chunk → List r.Real × StreamResampler f r Async =
        λ d. (d.0, record self { resampler = d.2; remainder = d.1 }) in
      ap (λ p. finish (drain on_chunk self.chunk_size p self.resampler))
        (sym (append_assoc self.remainder xs ys))
      ∙ ap finish
          (drain-append on_chunk self.chunk_size (self.remainder ++ xs) ys self.resampler positive)

  -- One call on the whole does what two calls on the pieces do.
  abbrev Splits : StreamResampler f r Async → List r.Real → List r.Real → Type 0
  Splits self xs ys =
      let first = process f r process_chunk self xs in
      let second = process f r process_chunk first.1 ys in
      process f r process_chunk self (xs ++ ys) ≡ (first.0 ++ second.0, second.1)

  process-Splits :
      (self : StreamResampler f r Async) (xs ys : List r.Real)
      → 0 < self.chunk_size
      → (self.from_rate == self.to_rate) ≡ false
      → Splits self xs ys
  process-Splits self [] ys positive other = rw (process-nothing self) refl
  process-Splits self (x ∷ xs) [] positive other =
      let first = process f r process_chunk self (x ∷ xs) in
      rw (process-nothing first.1) (
        ap (process f r process_chunk self) (append-nil (x ∷ xs))
        ∙ (λ i. (sym (append-nil first.0) i, first.1)))
  process-Splits self (x ∷ xs) (y ∷ ys) positive other =
      rw
        (
          process-drained self x (xs ++ (y ∷ ys)) other,
          process-drained self x xs other,
          process-drained (drained self (x ∷ xs)).1 y ys other,
        )
        (drained-append self (x ∷ xs) (y ∷ ys) positive)

  -- Two pieces of a stream, resampled one after the other, make the output that the two make as one
  -- piece, and leave the same resampler and the same samples waiting, also where one is empty, the
  -- rates are the same, or the crate fails.
  pub process-append :
      (self : StreamResampler f r Async) (xs ys : List r.Real)
      → 0 < self.chunk_size
      → let first = process f r process_chunk self xs in
        let second = process f r process_chunk first.1 ys in
        process f r process_chunk self (xs ++ ys) ≡ (first.0 ++ second.0, second.1)
  process-append self xs ys positive = elim (Bool-cases (self.from_rate == self.to_rate)) [
    | inl same ↦
        rw (process-same self (xs ++ ys) same, process-same self xs same, process-same self ys same)
          refl
    | inr other ↦ process-Splits self xs ys positive other
  ]
