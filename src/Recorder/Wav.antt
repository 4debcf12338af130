-- ===== src/Recorder/Wav.antt =====
-- The file that `write_wav` of src/recorder.rs writes. Sums and products are those of `u32`, with
-- the wrap-around of a release build.
use rtp_engine.Base.{ℕ, ◌+◌, ◌-◌, ◌*◌, ◌/◌, ◌%◌, List, [], ◌∷◌, ◌++◌, length}
use rtp_engine.Codec.G711.{Sample, plus, minus}

-- The two channels in turn, the shorter one padded with silence.
unfoldable pub interleave : List Sample → List Sample → List Sample
interleave [] [] = []
interleave [] (rx ∷ rxs) = plus 0 ∷ rx ∷ interleave [] rxs
interleave (tx ∷ txs) [] = tx ∷ plus 0 ∷ interleave txs []
interleave (tx ∷ txs) (rx ∷ rxs) = tx ∷ rx ∷ interleave txs rxs

abbrev pub u16_to_le : ℕ → List ℕ
u16_to_le x = (x % 256) ∷ (x / 256 % 256) ∷ []

abbrev pub u32_to_le : ℕ → List ℕ
u32_to_le x = (x % 256) ∷ (x / 256 % 256) ∷ (x / 65536 % 256) ∷ (x / 16777216 % 256) ∷ []

-- An `i16` as a `u16`.
abbrev pub to_word : Sample → ℕ
to_word (plus n) = n
to_word (minus n) = 65536 - n

unfoldable pub sample_bytes : List Sample → List ℕ
sample_bytes [] = []
sample_bytes (sample ∷ samples) = u16_to_le (to_word sample) ++ sample_bytes samples

abbrev pub num_channels : ℕ
num_channels = 2

abbrev pub bits_per_sample : ℕ
bits_per_sample = 16

-- "RIFF", "WAVE", "fmt " and "data"
abbrev riff_tag : List ℕ
riff_tag = 82 ∷ 73 ∷ 70 ∷ 70 ∷ []

abbrev wave_tag : List ℕ
wave_tag = 87 ∷ 65 ∷ 86 ∷ 69 ∷ []

abbrev fmt_tag : List ℕ
fmt_tag = 102 ∷ 109 ∷ 116 ∷ 32 ∷ []

abbrev data_tag : List ℕ
data_tag = 100 ∷ 97 ∷ 116 ∷ 97 ∷ []

unfoldable pub wav_header : ℕ → ℕ → List ℕ
wav_header sample_rate samples =
    let byte_rate = sample_rate * num_channels % 4294967296 * (bits_per_sample / 8) % 4294967296 in
    let block_align = num_channels * (bits_per_sample / 8) in
    let data_size = samples * 2 % 4294967296 in
    let file_size = (36 + data_size) % 4294967296 in
    riff_tag
    ++ u32_to_le file_size
    ++ wave_tag
    ++ fmt_tag
    ++ u32_to_le 16
    ++ u16_to_le 1
    ++ u16_to_le num_channels
    ++ u32_to_le sample_rate
    ++ u32_to_le byte_rate
    ++ u16_to_le block_align
    ++ u16_to_le bits_per_sample
    ++ data_tag
    ++ u32_to_le data_size

unfoldable pub wav_bytes : List Sample → List Sample → ℕ → List ℕ
unfolding wav_header interleave sample_bytes
wav_bytes tx rx sample_rate =
    let stereo = interleave tx rx in wav_header sample_rate (length stereo) ++ sample_bytes stereo
