-- ===== src/Codec/G722/Run.antt =====
-- What the coder of G.722 (src/codec/g722.rs) makes, and its state, over a piece of input.
use rtp_engine.Base.{
  ℕ, ◌+◌, ◌*◌, ◌<◌, ◌≡◌, refl, Option, none, some, ap, ◌∙◌, List, [], ◌∷◌, length, All, arith,
}
use rtp_engine.Base.Int.{ℤ, pos, negsuc, ◌-ℤ◌}
use rtp_engine.Codec.G711.{Sample, IsI16}
use rtp_engine.Codec.G722.Encoder.{
  G722Encoder, encode, encode_pair, encode_pairs, resume, low_max_nb, high_max_nb,
}
use rtp_engine.Codec.G722.Decoder.{G722Decoder, decode, decode_byte, to_i16}
use rtp_engine.Codec.G722.Band.{Band}
use rtp_engine.Codec.G722.Band
use rtp_engine.Codec.G722.Chunks.{pair-pending}
use rtp_engine.Codec.G722.Range.{Fits, saturate-Fits}
use rtp_engine.Codec.G722.Bounds.{Bounded, adapt_low-Bounded, adapt_high-Bounded}

-- The two bands in their ranges.
abbrev pub BandsBounded : Band → Band → Type 0
BandsBounded low high = Bounded low_max_nb low × Bounded high_max_nb high

pub new-BandsBounded : BandsBounded (Band.new (pos 32)) (Band.new (pos 8))
unfolding Band.new ◌-ℤ◌
new-BandsBounded = ground arith

to_i16-IsI16 : (x : ℤ) → Fits x → IsI16 (to_i16 x)
to_i16-IsI16 (pos n) fits = omega arith
to_i16-IsI16 (negsuc n) fits = omega arith

-- The samples held back.
abbrev pub held : Option Sample → ℕ
held none = 0
held (some x) = 1

abbrev pub Encoded : ℕ → List ℕ × G722Encoder → Type 0
Encoded samples (bytes, encoder) =
    (length bytes * 2 + held encoder.pending ≡ samples)
    × All (λ (b : ℕ). b < 256) bytes
    × BandsBounded encoder.low encoder.high

pair-BandsBounded :
    (encoder : G722Encoder) (first second : Sample)
    → BandsBounded encoder.low encoder.high
    → let after = (encode_pair encoder first second).1 in BandsBounded after.low after.high
unfolding encode_pair
pair-BandsBounded encoder first second (low, high) =
    (adapt_low-Bounded encoder.low _ low, adapt_high-Bounded encoder.high _ high)

pair-byte :
    (encoder : G722Encoder) (first second : Sample) → (encode_pair encoder first second).0 < 256
unfolding encode_pair
pair-byte encoder first second = omega arith

pairs-Encoded :
    (encoder : G722Encoder) (pcm : List Sample)
    → encoder.pending ≡ none
    → BandsBounded encoder.low encoder.high
    → Encoded (length pcm) (encode_pairs encoder pcm)
unfolding encode_pairs
pairs-Encoded encoder [] e bounded =
    let nothing : held encoder.pending ≡ 0 = ap held e in (omega arith, tt, bounded)
pairs-Encoded encoder (first ∷ []) e bounded = (refl, tt, bounded)
pairs-Encoded encoder (first ∷ second ∷ pcm) e bounded =
    let pair = encode_pair encoder first second in
    let (count, bytes, after) =
      pairs-Encoded pair.1 pcm (pair-pending encoder first second ∙ e)
        (pair-BandsBounded encoder first second bounded) in
    (omega arith, (pair-byte encoder first second, bytes), after)

resume-Encoded :
    (encoder : G722Encoder) (pending : Option Sample) (pcm : List Sample)
    → encoder.pending ≡ pending
    → BandsBounded encoder.low encoder.high
    → Encoded (held pending + length pcm) (resume encoder pending pcm)
unfolding resume
resume-Encoded encoder none pcm e bounded =
    let (count, bytes, after) = pairs-Encoded encoder pcm e bounded in (omega arith, bytes, after)
resume-Encoded encoder (some first) pcm e bounded =
    let (count, bytes, after) =
      pairs-Encoded (record encoder { pending = none }) (first ∷ pcm) refl bounded in
    (omega arith, bytes, after)

-- From an encoder whose bands are in their ranges, encode makes one byte of every two samples, the
-- one that was held back first and an odd one at the end held back, and the bands stay in their
-- ranges: the poles of the predictors stable, every signal and coefficient in 16 bits.
pub encode-Encoded :
    (encoder : G722Encoder) (pcm : List Sample)
    → BandsBounded encoder.low encoder.high
    → Encoded (held encoder.pending + length pcm) (encode encoder pcm)
unfolding encode
encode-Encoded encoder pcm bounded = resume-Encoded encoder encoder.pending pcm refl bounded

abbrev pub Decoded : ℕ → List Sample × G722Decoder → Type 0
Decoded bytes (samples, decoder) =
    (length samples ≡ 2 * bytes) × All IsI16 samples × BandsBounded decoder.low decoder.high

byte-BandsBounded :
    (decoder : G722Decoder) (code : ℕ)
    → BandsBounded decoder.low decoder.high
    → let after = (decode_byte decoder code).2 in BandsBounded after.low after.high
unfolding decode_byte
byte-BandsBounded decoder code (low, high) =
    (adapt_low-Bounded decoder.low _ low, adapt_high-Bounded decoder.high _ high)

byte-IsI16 :
    (decoder : G722Decoder) (code : ℕ)
    → IsI16 (decode_byte decoder code).0 × IsI16 (decode_byte decoder code).1
unfolding decode_byte
byte-IsI16 decoder code = (to_i16-IsI16 _ (saturate-Fits _), to_i16-IsI16 _ (saturate-Fits _))

-- From a decoder whose bands are in their ranges, decode makes two samples of 16 bits of every
-- byte, whatever the bytes are, and the bands stay in their ranges.
pub decode-Decoded :
    (decoder : G722Decoder) (encoded : List ℕ)
    → BandsBounded decoder.low decoder.high
    → Decoded (length encoded) (decode decoder encoded)
unfolding decode
decode-Decoded decoder [] bounded = (refl, tt, bounded)
decode-Decoded decoder (code ∷ encoded) bounded =
    let (first, second) = byte-IsI16 decoder code in
    let (count, samples, after) =
      decode-Decoded (decode_byte decoder code).2 encoded
        (byte-BandsBounded decoder code bounded) in
    (omega arith, (first, (second, samples)), after)
