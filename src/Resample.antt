-- ===== src/Resample.antt =====
-- src/resample.rs. The arithmetic of floats is a parameter, and so is the third-party crate rubato.
pub mod Whole
pub mod Laws
mod Tests
use rtp_engine.Base.{
  ℕ, zero, suc, ◌+◌, Bool, true, false, ◌||◌, Option, none, some, List, [], ◌∷◌, ◌++◌, length,
  get_elem?, get_or, map, ltb, ◌==◌, if◌then◌else◌,
}
use rtp_engine.Base.Drain.{drain}
use rtp_engine.Base.Float.{F64}
use rtp_engine.Codec.G711.{Sample}

-- The arithmetic of `f32`, with the casts between it and `f64` and `ceil` of `f64`.
pub record F32 (f : F64) : Type 1 where
  pub Real : Type 0
  pub zero_sample : Real
  pub one : Real
  pub minus_one : Real
  pub of_ℕ : ℕ → Real
  pub mul : Real → Real → Real
  pub div : Real → Real → Real
  -- `v.clamp(least, most)`
  pub clamp : Real → Real → Real → Real
  pub of_i16 : Sample → Real
  pub to_i16 : Real → Sample
  pub widen : Real → f.Value
  pub narrow : f.Value → Real
  pub ceil : f.Value → f.Value

abbrev usize_max : ℕ
usize_max = 18446744073709551615

abbrev is_empty {ℓ} : {A : Type ℓ} → List A → Bool
is_empty [] = true
is_empty (x ∷ xs) = false

-- From a number on, so many of them.
unfoldable pub range : ℕ → ℕ → List ℕ
range from zero = []
range from (suc count) = from ∷ range (from + 1) count

module _ (f : F64) (r : F32 f) where
  -- The sample at place `i` of the output.
  unfoldable pub interpolate : List r.Real → f.Value → ℕ → r.Real
  interpolate input ratio i =
      let src_idx_f = f.mul (f.of_ℕ i) ratio in
      let src_idx = f.to_unsigned usize_max src_idx_f in
      let frac = f.sub src_idx_f (f.of_ℕ src_idx) in
      let here = get_or input src_idx r.zero_sample in
      let s0 = r.widen here in
      let s1 = r.widen (elim (get_elem? input (src_idx + 1)) [ none ↦ here | some next ↦ next ]) in
      r.narrow (f.add s0 (f.mul frac (f.sub s1 s0)))

  unfoldable pub resample_linear_simple : List r.Real → ℕ → ℕ → List r.Real
  unfolding interpolate range
  resample_linear_simple input from_rate to_rate =
      let ratio = f.div (f.of_ℕ from_rate) (f.of_ℕ to_rate) in
      let output_len = f.to_unsigned usize_max (r.ceil (f.div (f.of_ℕ (length input)) ratio)) in
      if from_rate == to_rate || is_empty input
      then input
      else map (interpolate input ratio) (range 0 output_len)

  -- What `resample_with_rubato` returns, `none` on an error, is `rubato`.
  unfoldable pub resample_linear :
      (List r.Real → ℕ → ℕ → Option (List r.Real)) → List r.Real → ℕ → ℕ → List r.Real
  unfolding resample_linear_simple
  resample_linear rubato input from_rate to_rate =
      if from_rate == to_rate || is_empty input
      then input
      else if ltb (length input) 64
      then resample_linear_simple input from_rate to_rate
      else elim (rubato input from_rate to_rate) [
        | none ↦ resample_linear_simple input from_rate to_rate
        | some output ↦ output
      ]

  abbrev pub sample_of : r.Real → Sample
  sample_of s = r.to_i16 (r.mul (r.clamp r.minus_one r.one s) (r.of_ℕ 32767))

  unfoldable pub f32_to_i16 : List r.Real → List Sample
  f32_to_i16 input = map sample_of input

  unfoldable pub i16_to_f32 : List Sample → List r.Real
  i16_to_f32 input = map (λ s. r.div (r.of_i16 s) (r.of_ℕ 32768)) input

  unfoldable pub resample_linear_i16 :
      (List r.Real → ℕ → ℕ → Option (List r.Real)) → List Sample → ℕ → ℕ → List Sample
  unfolding resample_linear f32_to_i16 i16_to_f32
  resample_linear_i16 rubato input from_rate to_rate =
      if from_rate == to_rate || is_empty input
      then input
      else f32_to_i16 (resample_linear rubato (i16_to_f32 input) from_rate to_rate)

  -- `Async` is a resampler of the crate.
  pub record StreamResampler (Async : Type 0) : Type 0 where
    pub resampler : Async
    pub from_rate : ℕ
    pub to_rate : ℕ
    pub chunk_size : ℕ
    pub remainder : List r.Real

  module _ {Async : Type 0} where
    -- `none` where `expect` panics.
    unfoldable pub new : (f.Value → ℕ → Option Async) → ℕ → ℕ → ℕ → Option (StreamResampler Async)
    new new_poly from_rate to_rate chunk_size =
        elim (new_poly (f.div (f.of_ℕ to_rate) (f.of_ℕ from_rate)) chunk_size) [
          | none ↦ none
          | some resampler ↦ some (record {
            resampler = resampler;
            from_rate = from_rate;
            to_rate = to_rate;
            chunk_size = chunk_size;
            remainder = [];
          })
        ]

    -- What is left is resampled without the crate.
    unfoldable pub flush : StreamResampler Async → List r.Real × StreamResampler Async
    unfolding resample_linear_simple
    flush self = elim self.remainder [
      | [] ↦ ([], self)
      | sample ∷ others ↦ (
        resample_linear_simple (sample ∷ others) self.from_rate self.to_rate,
        record self { remainder = [] },
      )
    ]

    module _ (process_chunk : Async → List r.Real → Async × Option (List r.Real)) where
      -- A chunk, resampled without the crate where it fails.
      unfoldable pub chunk_output : ℕ → ℕ → Async → List r.Real → Async × List r.Real
      unfolding resample_linear_simple
      chunk_output from_rate to_rate resampler chunk =
          let (after, resampled) = process_chunk resampler chunk in
          (
            after,
            elim resampled [
              | none ↦ resample_linear_simple chunk from_rate to_rate
              | some output ↦ output
            ],
          )

      unfoldable pub process :
          StreamResampler Async → List r.Real → List r.Real × StreamResampler Async
      unfolding drain chunk_output
      process self input =
          let (output, tail, after) =
            drain (chunk_output self.from_rate self.to_rate) self.chunk_size
              (self.remainder ++ input) self.resampler in
          if self.from_rate == self.to_rate || is_empty input
          then (input, self)
          else (output, record self { resampler = after; remainder = tail })
