-- ===== src/Recorder/Reader.antt =====
-- A reader of stereo WAV files on the files of src/recorder.rs.
use rtp_engine.Base.{
  ℕ, suc, ◌+◌, ◌-◌, ◌*◌, ◌/◌, ◌%◌, ◌<◌, max, replicate, ◌≡◌, refl, ap, sym, ◌∙◌, true, ◌&&◌, Option,
  none, some, List, [], ◌∷◌, ◌++◌, length, All, arith, leb, ◌==◌, if◌then◌else◌, byte_at, drop,
  append-nil, ==_iff,
}
use rtp_engine.Codec.G711.{Sample, plus, minus, IsI16}
use rtp_engine.Recorder.Wav.{interleave, sample_bytes, to_word, wav_header, wav_bytes}

abbrev u16_le_at : List ℕ → ℕ → ℕ
u16_le_at bytes i = byte_at bytes i + byte_at bytes (i + 1) * 256

abbrev u32_le_at : List ℕ → ℕ → ℕ
u32_le_at bytes i = u16_le_at bytes i + u16_le_at bytes (i + 2) * 65536

abbrev from_word : ℕ → Sample
from_word n = if leb 32768 n then minus (65536 - n) else plus n

-- The samples of the left channel and of the right one.
unfoldable pub read_stereo : List ℕ → List Sample × List Sample
read_stereo (a ∷ b ∷ c ∷ d ∷ rest) =
    let (left, right) = read_stereo rest in
    (from_word (a + b * 256) ∷ left, from_word (c + d * 256) ∷ right)
read_stereo bytes = ([], [])

-- A RIFF file whose length is the one it states, with 16-bit PCM of two channels, whose byte rate is
-- that of its sample rate and whose data chunk fills the rest: the sample rate and the two channels.
unfoldable pub read_wav : List ℕ → Option (ℕ × List Sample × List Sample)
unfolding read_stereo
read_wav bytes =
    let rate = u32_le_at bytes 24 in
    let tags =
      u32_le_at bytes 0 == 0x46464952
      && u32_le_at bytes 8 == 0x45564157
      && u32_le_at bytes 12 == 0x20746d66
      && u32_le_at bytes 36 == 0x61746164 in
    let format =
      u32_le_at bytes 16 == 16
      && u16_le_at bytes 20 == 1
      && u16_le_at bytes 22 == 2
      && u32_le_at bytes 28 == rate * 4
      && u16_le_at bytes 32 == 4
      && u16_le_at bytes 34 == 16 in
    let sizes = u32_le_at bytes 4 + 8 == length bytes && u32_le_at bytes 40 + 44 == length bytes in
    let (left, right) = read_stereo (drop 44 bytes) in
    if tags && format && sizes then some (rate, left, right) else none

-- A channel with silence behind it where the other one is longer.
abbrev pub padded : List Sample → List Sample → List Sample
padded channel other = channel ++ replicate (length other - length channel) (plus 0)

from_word-to_word :
    (s : Sample) → IsI16 s → from_word (to_word s % 256 + to_word s / 256 % 256 * 256) ≡ s
from_word-to_word (plus n) fits = ground arith
from_word-to_word (minus n) fits = ground arith

silence_read : from_word (to_word (plus 0) % 256 + to_word (plus 0) / 256 % 256 * 256) ≡ plus 0
silence_read = refl

read_stereo-right :
    (rx : List Sample)
    → All IsI16 rx
    → read_stereo (sample_bytes (interleave [] rx)) ≡ (replicate (length rx) (plus 0), rx)
unfolding read_stereo sample_bytes interleave
read_stereo-right [] fits = refl
read_stereo-right (r ∷ rx) (fit, fits) =
    let rest = read_stereo-right rx fits in
    let read = from_word-to_word r fit in λ i. (plus 0 ∷ (rest i).0, read i ∷ (rest i).1)

read_stereo-left :
    (tx : List Sample)
    → All IsI16 tx
    → read_stereo (sample_bytes (interleave tx [])) ≡ (tx, replicate (length tx) (plus 0))
unfolding read_stereo sample_bytes interleave
read_stereo-left [] fits = refl
read_stereo-left (t ∷ tx) (fit, fits) =
    let rest = read_stereo-left tx fits in
    let read = from_word-to_word t fit in λ i. (read i ∷ (rest i).0, plus 0 ∷ (rest i).1)

unpadded : (xs : List Sample) (count : ℕ) → count ≡ 0 → xs ≡ xs ++ replicate count (plus 0)
unpadded xs count e = sym (append-nil xs) ∙ ap (λ n. xs ++ replicate n (plus 0)) (sym e)

read_stereo-interleave :
    (tx rx : List Sample)
    → All IsI16 tx
    → All IsI16 rx
    → read_stereo (sample_bytes (interleave tx rx)) ≡ (padded tx rx, padded rx tx)
unfolding read_stereo sample_bytes interleave
read_stereo-interleave [] [] t_fits r_fits = refl
read_stereo-interleave [] (r ∷ rx) t_fits r_fits =
    let count : suc (length rx) ≡ suc (length rx) - 0 = omega arith in
    read_stereo-right (r ∷ rx) r_fits
    ∙ (λ i. (replicate (count i) (plus 0), unpadded (r ∷ rx) (0 - suc (length rx)) (omega arith) i))
read_stereo-interleave (t ∷ tx) [] t_fits r_fits =
    let count : suc (length tx) ≡ suc (length tx) - 0 = omega arith in
    read_stereo-left (t ∷ tx) t_fits
    ∙ (λ i. (unpadded (t ∷ tx) (0 - suc (length tx)) (omega arith) i, replicate (count i) (plus 0)))
read_stereo-interleave (t ∷ tx) (r ∷ rx) (t_fit, t_fits) (r_fit, r_fits) =
    let rest = read_stereo-interleave tx rx t_fits r_fits in
    let left = from_word-to_word t t_fit in
    let right = from_word-to_word r r_fit in
    let more_right : length rx - length tx ≡ suc (length rx) - suc (length tx) = omega arith in
    let more_left : length tx - length rx ≡ suc (length tx) - suc (length rx) = omega arith in
    (λ i. (left i ∷ (rest i).0, right i ∷ (rest i).1)) ∙ (λ i.
      (t ∷ (tx ++ replicate (more_right i) (plus 0)), r ∷ (rx ++ replicate (more_left i) (plus 0))))

length-sample_bytes : (samples : List Sample) → length (sample_bytes samples) ≡ length samples * 2
unfolding sample_bytes
length-sample_bytes [] = refl
length-sample_bytes (s ∷ samples) = omega (arith, length-sample_bytes samples)

header_read :
    (rate n : ℕ) (body : List ℕ)
    → rate * 4 < 4294967296
    → n * 2 + 36 < 4294967296
    → length body ≡ n * 2
    → read_wav (wav_header rate n ++ body) ≡ some (rate, (read_stereo body).0, (read_stereo body).1)
unfolding read_wav wav_header
header_read rate n body h k e =
    let bytes : List ℕ = wav_header rate n ++ body in
    let rate_read : u32_le_at bytes 24 ≡ rate = omega arith in
    let byte_rate : (u32_le_at bytes 28 == rate * 4) ≡ true = (==_iff _ _).1 (omega arith) in
    let whole_size : (u32_le_at bytes 4 + 8 == length bytes) ≡ true =
      (==_iff _ _).1 (omega arith) in
    let data_size : (u32_le_at bytes 40 + 44 == length bytes) ≡ true =
      (==_iff _ _).1 (omega arith) in
    simp (read_wav, byte_rate, whole_size, data_size, rate_read)

length-interleave :
    (tx rx : List Sample) → length (interleave tx rx) ≡ max (length tx) (length rx) * 2
unfolding interleave
length-interleave [] [] = refl
length-interleave [] (r ∷ rx) = omega (arith, length-interleave [] rx)
length-interleave (t ∷ tx) [] = omega (arith, length-interleave tx [])
length-interleave (t ∷ tx) (r ∷ rx) = omega (arith, length-interleave tx rx)

-- The samples fit a WAV file of 32-bit sizes.
abbrev pub FitsFile : List Sample → List Sample → ℕ → Type 0
FitsFile tx rx rate =
    All IsI16 tx
    × All IsI16 rx
    × (max (length tx) (length rx) * 4 + 36 < 4294967296)
    × (rate * 4 < 4294967296)

pub wav_bytes-read :
    (tx rx : List Sample) (rate : ℕ)
    → FitsFile tx rx rate
    → read_wav (wav_bytes tx rx rate) ≡ some (rate, padded tx rx, padded rx tx)
unfolding wav_bytes
wav_bytes-read tx rx rate (tx_fit, rx_fit, size_fits, rate_fits) =
    let stereo = interleave tx rx in
    let count = length-interleave tx rx in
    header_read rate (length stereo) (sample_bytes stereo) rate_fits
      (omega (arith, count, size_fits)) (length-sample_bytes stereo)
    ∙ ap (λ r. some (rate, r.0, r.1)) (read_stereo-interleave tx rx tx_fit rx_fit)
