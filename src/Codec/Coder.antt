-- ===== src/Codec/Coder.antt =====
-- The traits AudioEncoder and AudioDecoder of src/codec/mod.rs with `create_encoder` and
-- `create_decoder`, as an interface: a coder is a value that a call replaces.
use rtp_engine.Base.{ℕ, Option, List, replicate}
use rtp_engine.Error.{Result, ok, err, codec, map_ok}
use rtp_engine.Codec.Types.{CodecType, pcmu, pcma, g729, g722, opus}
use rtp_engine.Codec.G711.{Sample, plus, encode_pcmu, decode_pcmu, encode_pcma, decode_pcma}
use rtp_engine.Codec.G722.Encoder.{G722Encoder}
use rtp_engine.Codec.G722.Encoder
use rtp_engine.Codec.G722.Decoder.{G722Decoder}
use rtp_engine.Codec.G722.Decoder

pub record Coders : Type 1 where
  pub Encoder : Type 0
  pub Decoder : Type 0
  pub create_encoder : CodecType → Result Encoder
  pub create_decoder : CodecType → Result Decoder
  -- What is appended to the output, and the coder after the call.
  pub encode : Encoder → List Sample → List ℕ × Encoder
  pub decode : Decoder → List ℕ → List Sample × Decoder
  pub conceal_loss : Decoder → ℕ → Option (List ℕ) → List Sample × Decoder

-- `AudioDecoder::conceal_loss` by default: silence.
unfoldable pub silence : ℕ → List Sample
silence samples = replicate samples (plus 0)

-- The coders of G.711, which have no state but the law; the other codecs are refused.
pub data Law : Type 0 where
  mu a : Law

unfoldable pub g711_law : CodecType → Result Law
g711_law pcmu = ok mu
g711_law pcma = ok a
g711_law g729 = err codec
g711_law g722 = err codec
g711_law opus = err codec

unfoldable pub encode_by : Law → List Sample → List ℕ × Law
unfolding encode_pcmu encode_pcma
encode_by mu pcm = (encode_pcmu pcm, mu)
encode_by a pcm = (encode_pcma pcm, a)

unfoldable pub decode_by : Law → List ℕ → List Sample × Law
unfolding decode_pcmu decode_pcma
decode_by mu encoded = (decode_pcmu encoded, mu)
decode_by a encoded = (decode_pcma encoded, a)

abbrev pub g711_coders : Coders
g711_coders = record {
  Encoder = Law;
  Decoder = Law;
  create_encoder = g711_law;
  create_decoder = g711_law;
  encode = encode_by;
  decode = decode_by;
  conceal_loss = λ law samples next. (silence samples, law);
}

-- `create_encoder` and `create_decoder`: the codecs of this development, with the coders of the
-- other two as a parameter.
module _ (others : Coders) where
  pub data AnyEncoder : Type 0 where
    by_law : Law → AnyEncoder
    wideband : G722Encoder → AnyEncoder
    other : others.Encoder → AnyEncoder

  pub data AnyDecoder : Type 0 where
    by_law : Law → AnyDecoder
    wideband : G722Decoder → AnyDecoder
    other : others.Decoder → AnyDecoder

  unfoldable pub create_encoder : CodecType → Result AnyEncoder
  create_encoder pcmu = ok (by_law mu)
  create_encoder pcma = ok (by_law a)
  create_encoder g729 = map_ok other (others.create_encoder g729)
  create_encoder g722 = ok (wideband Encoder.new)
  create_encoder opus = map_ok other (others.create_encoder opus)

  unfoldable pub create_decoder : CodecType → Result AnyDecoder
  create_decoder pcmu = ok (by_law mu)
  create_decoder pcma = ok (by_law a)
  create_decoder g729 = map_ok other (others.create_decoder g729)
  create_decoder g722 = ok (wideband Decoder.new)
  create_decoder opus = map_ok other (others.create_decoder opus)

  unfoldable pub encode_any : AnyEncoder → List Sample → List ℕ × AnyEncoder
  unfolding encode_by
  encode_any (by_law law) pcm = let (bytes, after) = encode_by law pcm in (bytes, by_law after)
  encode_any (wideband encoder) pcm =
      let (bytes, after) = Encoder.encode encoder pcm in (bytes, wideband after)
  encode_any (other encoder) pcm =
      let (bytes, after) = others.encode encoder pcm in (bytes, other after)

  unfoldable pub decode_any : AnyDecoder → List ℕ → List Sample × AnyDecoder
  unfolding decode_by
  decode_any (by_law law) encoded =
      let (samples, after) = decode_by law encoded in (samples, by_law after)
  decode_any (wideband decoder) encoded =
      let (samples, after) = Decoder.decode decoder encoded in (samples, wideband after)
  decode_any (other decoder) encoded =
      let (samples, after) = others.decode decoder encoded in (samples, other after)

  unfoldable pub conceal_any : AnyDecoder → ℕ → Option (List ℕ) → List Sample × AnyDecoder
  unfolding silence
  conceal_any (other decoder) samples next =
      let (concealed, after) = others.conceal_loss decoder samples next in (concealed, other after)
  conceal_any decoder samples next = (silence samples, decoder)

  abbrev pub any_coders : Coders
  any_coders = record {
    Encoder = AnyEncoder;
    Decoder = AnyDecoder;
    create_encoder = create_encoder;
    create_decoder = create_decoder;
    encode = encode_any;
    decode = decode_any;
    conceal_loss = conceal_any;
  }
