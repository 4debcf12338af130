-- ===== src/Codec/G711/Laws.antt =====
-- Decoding and encoding again, for both laws of src/codec/g711.rs.
use rtp_engine.Base.{
  ℕ, ◌≡◌, refl, ap₂, Bool, true, List, [], ◌∷◌, ◌==◌, ==_iff, passes_from, passes_from-below,
  IsByte, IsBytes, if◌then◌else◌,
}
use rtp_engine.Codec.G711.{
  linear_to_ulaw, ulaw_to_linear, linear_to_alaw, alaw_to_linear, encode_pcmu, decode_pcmu,
  encode_pcma, decode_pcma,
}

alaw_comes_back : ℕ → Bool
alaw_comes_back code = linear_to_alaw (alaw_to_linear code) == code

alaw_table : passes_from alaw_comes_back 0 256 ≡ true
unfolding passes_from alaw_comes_back linear_to_alaw alaw_to_linear
alaw_table = refl

-- The two μ-law codes of zero, 0xFF and 0x7F, come back as the first.
abbrev pub canonical_ulaw : ℕ → ℕ
canonical_ulaw code = if code == 0x7F then 0xFF else code

abbrev pub canonical_all : List ℕ → List ℕ
canonical_all [] = []
canonical_all (code ∷ rest) = canonical_ulaw code ∷ canonical_all rest

ulaw_comes_back : ℕ → Bool
ulaw_comes_back code = linear_to_ulaw (ulaw_to_linear code) == canonical_ulaw code

ulaw_table : passes_from ulaw_comes_back 0 256 ≡ true
unfolding passes_from ulaw_comes_back linear_to_ulaw ulaw_to_linear
ulaw_table = refl

alaw_again : (code : ℕ) → IsByte code → linear_to_alaw (alaw_to_linear code) ≡ code
unfolding alaw_comes_back
alaw_again code byte =
    (==_iff _ code).0 (passes_from-below alaw_comes_back 256 code alaw_table byte)

ulaw_again : (code : ℕ) → IsByte code → linear_to_ulaw (ulaw_to_linear code) ≡ canonical_ulaw code
unfolding ulaw_comes_back
ulaw_again code byte =
    (==_iff _ (canonical_ulaw code)).0 (passes_from-below ulaw_comes_back 256 code ulaw_table byte)

-- A-law bytes decoded by PcmaDecoder and encoded again by PcmaEncoder are the same bytes.
pub encode_pcma-decode_pcma :
    (encoded : List ℕ) → IsBytes encoded → encode_pcma (decode_pcma encoded) ≡ encoded
unfolding encode_pcma decode_pcma
encode_pcma-decode_pcma [] bytes = refl
encode_pcma-decode_pcma (code ∷ rest) bytes =
    ap₂ ◌∷◌ (alaw_again code bytes.0) (encode_pcma-decode_pcma rest bytes.1)

-- μ-law bytes decoded by PcmuDecoder and encoded again by PcmuEncoder are the same bytes, but that
-- the second code of zero, 0x7F, comes back as the first, 0xFF.
pub encode_pcmu-decode_pcmu :
    (encoded : List ℕ) → IsBytes encoded → encode_pcmu (decode_pcmu encoded) ≡ canonical_all encoded
unfolding encode_pcmu decode_pcmu
encode_pcmu-decode_pcmu [] bytes = refl
encode_pcmu-decode_pcmu (code ∷ rest) bytes =
    ap₂ ◌∷◌ (ulaw_again code bytes.0) (encode_pcmu-decode_pcmu rest bytes.1)
