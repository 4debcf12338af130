-- ===== src/Codec/G711/Tests.antt =====
-- G.711 on concrete samples.
use rtp_engine.Base.{◌≡◌, refl, [], ◌∷◌, arith}
use rtp_engine.Codec.G711.{plus, minus, linear_to_ulaw, linear_to_alaw, encode_pcmu, decode_pcmu}
use rtp_engine.Codec.G711.Laws.{encode_pcmu-decode_pcmu}

silence_ulaw : linear_to_ulaw (plus 0) ≡ 0xFF
unfolding linear_to_ulaw
silence_ulaw = refl

silence_alaw : linear_to_alaw (plus 0) ≡ 0xD5
unfolding linear_to_alaw
silence_alaw = refl

lowest_ulaw : linear_to_ulaw (minus 32768) ≡ 0
unfolding linear_to_ulaw
lowest_ulaw = refl

encode_pcmu-decode_pcmu_example : encode_pcmu (decode_pcmu (0x7F ∷ 0x80 ∷ [])) ≡ 0xFF ∷ 0x80 ∷ []
encode_pcmu-decode_pcmu_example =
    encode_pcmu-decode_pcmu (0x7F ∷ 0x80 ∷ []) (omega arith, (omega arith, tt))
