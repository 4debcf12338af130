-- ===== src/Resample/Whole.antt =====
-- Whole numbers in place of floats and a small crate, to run the model of src/resample.rs.
use rtp_engine.Base.{ℕ, zero, suc, ◌*◌, ◌/◌, Option, some, none, List, [], ◌∷◌}
use rtp_engine.Base.Float.{whole}
use rtp_engine.Codec.G711.{Sample, plus, minus}
use rtp_engine.Resample.{F32, StreamResampler}

abbrev pub size_of : Sample → ℕ
size_of (plus n) = n
size_of (minus n) = n

abbrev pub whole32 : F32 whole
whole32 = record {
  Real = ℕ;
  zero_sample = 0;
  one = 1;
  minus_one = 0;
  of_ℕ = λ n. n;
  mul = λ a b. a * b;
  div = λ a b. a / b;
  clamp = λ least most v. v;
  of_i16 = size_of;
  to_i16 = plus;
  widen = λ n. n;
  narrow = λ n. n;
  ceil = λ n. n;
}

-- The crate keeps a count of its chunks and fails from the second one on.
abbrev pub crate : ℕ → List ℕ → ℕ × Option (List ℕ)
crate zero chunk = (1, some (7 ∷ []))
crate (suc n) chunk = (suc (suc n), none)

abbrev pub resampler : StreamResampler whole whole32 ℕ
resampler = record {
  resampler = 0;
  from_rate = 16000;
  to_rate = 8000;
  chunk_size = 2;
  remainder = [];
}
