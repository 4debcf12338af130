-- ===== src/Codec/G722/Tests.antt =====
-- Runs of the coder of G.722, and the theorems about it at those inputs.
use rtp_engine.Base.{List, [], ◌∷◌, ◌++◌, ◌≡◌, refl}
use rtp_engine.Base.Int.{◌+ℤ◌, ◌-ℤ◌, ◌*ℤ◌, shr, clamp_ℤ, low_bits}
use rtp_engine.Codec.G711.{Sample, plus, minus}
use rtp_engine.Codec.G722.Encoder.{
  encode, resume, encode_pairs, encode_pair, adapt_low, adapt_high, quantl, quanth, qmf_sums,
}
use rtp_engine.Codec.G722.Encoder
use rtp_engine.Codec.G722.Decoder.{decode, decode_byte, reconstruct}
use rtp_engine.Codec.G722.Decoder
use rtp_engine.Codec.G722.Band
use rtp_engine.Codec.G722.Sync.{InStep, encode-InStep}
use rtp_engine.Codec.G722.Chunks.{encode_both, encode-append}
use rtp_engine.Codec.G722.Run.{Encoded, encode-Encoded, new-BandsBounded}

abbrev tone : List Sample
tone =
    plus 1000
    ∷ minus 2000
    ∷ plus 3000
    ∷ plus 12000
    ∷ minus 9000
    ∷ plus 500
    ∷ minus 1
    ∷ minus 30000
    ∷ plus 7
    ∷ []

tone_coded : (encode Encoder.new tone).0 ≡ 219 ∷ 176 ∷ 27 ∷ 132 ∷ []
unfolding encode resume encode_pairs encode_pair ◌+ℤ◌ ◌-ℤ◌ ◌*ℤ◌ shr clamp_ℤ low_bits quanth
    Band.saturate qmf_sums Band.new quantl adapt_high adapt_low
tone_coded = refl

tone_heard :
    (decode Decoder.new (219 ∷ 176 ∷ 27 ∷ 132 ∷ [])).0
    ≡ minus 1 ∷ plus 0 ∷ plus 0 ∷ minus 1 ∷ minus 1 ∷ plus 0 ∷ minus 1 ∷ minus 1 ∷ []
unfolding decode decode_byte Band.saturate clamp_ℤ shr qmf_sums ◌+ℤ◌ ◌*ℤ◌ ◌-ℤ◌ reconstruct Band.new
    adapt_low low_bits adapt_high
tone_heard = refl

encode-InStep_example :
    let coded = encode Encoder.new tone in InStep coded.1 (decode Decoder.new coded.0).1
encode-InStep_example = encode-InStep Encoder.new Decoder.new tone (refl, refl)

encode-append_example : encode Encoder.new (tone ++ tone) ≡ encode_both Encoder.new tone tone
encode-append_example = encode-append Encoder.new tone tone

encode-Encoded_example : Encoded 9 (encode Encoder.new tone)
encode-Encoded_example = encode-Encoded Encoder.new tone new-BandsBounded
