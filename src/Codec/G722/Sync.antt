-- ===== src/Codec/G722/Sync.antt =====
-- The adaptive state of the decoder of G.722 (src/codec/g722.rs) follows the encoder's.
use rtp_engine.Base.{
  ℕ, ◌+◌, ◌*◌, ◌/◌, ◌%◌, ◌<◌, ◌≡◌, refl, sym, ap₂, Option, none, some, List, [], ◌∷◌, arith,
}
use rtp_engine.Base.Int.{ℤ}
use rtp_engine.Codec.G711.{Sample}
use rtp_engine.Codec.G722.Tables.{iln, ilp}
use rtp_engine.Codec.G722.Range.{get_or-below}
use rtp_engine.Codec.G722.Encoder.{
  G722Encoder, encode, encode_pair, encode_pairs, resume, quantl, quanth, adapt_low, adapt_high,
  find_level, magnitude,
}
use rtp_engine.Codec.G722.Decoder.{G722Decoder, decode, decode_byte}

pub quantl-below : (el det : ℤ) → quantl el det < 64
unfolding quantl
quantl-below el det = ground (
  arith,
  get_or-below 64 ilp (find_level (magnitude el) det 1 29) (omega arith) refl,
  get_or-below 64 iln (find_level (magnitude el) det 1 29) (omega arith) refl,
)

pub quanth-below : (eh det : ℤ) → quanth eh det < 4
unfolding quanth
quanth-below eh det = ground arith

-- The bands are the same.
abbrev pub InStep : G722Encoder → G722Decoder → Type 0
InStep encoder decoder = (encoder.low ≡ decoder.low) × (encoder.high ≡ decoder.high)

low_of_code : (ihigh ilow : ℕ) → ihigh < 4 → ilow < 64 → (ihigh * 64 + ilow) % 256 % 64 ≡ ilow
low_of_code ihigh ilow h l = omega arith

high_of_code : (ihigh ilow : ℕ) → ihigh < 4 → ilow < 64 → (ihigh * 64 + ilow) % 256 / 64 % 4 ≡ ihigh
high_of_code ihigh ilow h l = omega arith

pair-InStep :
    (encoder : G722Encoder) (decoder : G722Decoder) (first second : Sample)
    → InStep encoder decoder
    → let pair = encode_pair encoder first second in InStep pair.1 (decode_byte decoder pair.0).2
unfolding encode_pair decode_byte
pair-InStep encoder decoder first second (low, high) = (
  ap₂ adapt_low low (sym (low_of_code _ _ (quanth-below _ _) (quantl-below _ _))),
  ap₂ adapt_high high (sym (high_of_code _ _ (quanth-below _ _) (quantl-below _ _))),
)

pairs-InStep :
    (encoder : G722Encoder) (decoder : G722Decoder) (pcm : List Sample)
    → InStep encoder decoder
    → let coded = encode_pairs encoder pcm in InStep coded.1 (decode decoder coded.0).1
unfolding encode_pairs decode
pairs-InStep encoder decoder [] same = same
pairs-InStep encoder decoder (first ∷ []) same = same
pairs-InStep encoder decoder (first ∷ second ∷ pcm) same =
    let pair = encode_pair encoder first second in
    pairs-InStep pair.1 (decode_byte decoder pair.0).2 pcm
      (pair-InStep encoder decoder first second same)

resume-InStep :
    (encoder : G722Encoder) (decoder : G722Decoder) (pending : Option Sample) (pcm : List Sample)
    → InStep encoder decoder
    → let coded = resume encoder pending pcm in InStep coded.1 (decode decoder coded.0).1
unfolding resume
resume-InStep encoder decoder none pcm same = pairs-InStep encoder decoder pcm same
resume-InStep encoder decoder (some first) pcm same =
    pairs-InStep (record encoder { pending = none }) decoder (first ∷ pcm) same

-- The bands of a decoder that has those of an encoder and is given all the bytes that the encoder
-- makes of a piece of input, of whatever length, are again the encoder's.
pub encode-InStep :
    (encoder : G722Encoder) (decoder : G722Decoder) (pcm : List Sample)
    → InStep encoder decoder
    → let coded = encode encoder pcm in InStep coded.1 (decode decoder coded.0).1
unfolding encode
encode-InStep encoder decoder pcm same = resume-InStep encoder decoder encoder.pending pcm same
