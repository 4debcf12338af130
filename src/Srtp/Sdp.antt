-- ===== src/Srtp/Sdp.antt =====
-- `parse_sdp_crypto` and `build_sdp_crypto_line` of src/srtp.rs over code points, and
-- `SrtpContext::generate` over the keying material drawn.
pub mod Offer
mod Tests
use rtp_engine.Base.{ℕ, ◌&&◌, Option, none, some, List, [], ◌∷◌, ◌++◌, take, drop, if◌then◌else◌}
use rtp_engine.Base.Text.{codes, lines, trim, strip_prefix, splitn, split, same_text}
use rtp_engine.Error.{Result, ok, ◌>>=◌}
use rtp_engine.Srtp.Crypto.{Crypto}
use rtp_engine.Srtp.Context.{SrtpContext, from_decoded}
use rtp_engine.Srtp.Context

-- The key of `inline:`, up to the first `|`.
unfoldable pub inline_key : List ℕ → Option (List ℕ)
inline_key params = elim (strip_prefix (codes "inline:") params) [
  | none ↦ none
  | some key_material ↦ some (split b'|' key_material).0
]

unfoldable pub key_of_parts : List (List ℕ) → Option (List ℕ)
unfolding inline_key
key_of_parts [] = none
key_of_parts (tag ∷ []) = none
key_of_parts (tag ∷ suite ∷ []) = none
key_of_parts (tag ∷ suite ∷ params ∷ others) =
    if same_text suite (codes "AES_CM_128_HMAC_SHA1_80") then inline_key params else none

unfoldable pub key_of_line : List ℕ → Option (List ℕ)
unfolding key_of_parts
key_of_line line = elim (strip_prefix (codes "a=crypto:") (trim line)) [
  | none ↦ none
  | some rest ↦ key_of_parts (splitn 3 b' ' rest)
]

unfoldable pub first_key : List (List ℕ) → Option (List ℕ)
unfolding key_of_line
first_key [] = none
first_key (line ∷ others) = elim (key_of_line line) [
  | none ↦ first_key others
  | some key ↦ some key
]

unfoldable pub parse_sdp_crypto : List ℕ → Option (List ℕ)
unfolding first_key
parse_sdp_crypto sdp = first_key (lines sdp)

unfoldable pub build_sdp_crypto_line : List ℕ → List ℕ
build_sdp_crypto_line b64_key =
    codes "a=crypto:1 AES_CM_128_HMAC_SHA1_80 inline:" ++ (b64_key ++ (b'\r' ∷ b'\n' ∷ []))

-- `from_base64` with the decoder, which is third-party code.
unfoldable pub from_base64 : Crypto → (List ℕ → Option (List ℕ)) → List ℕ → Result SrtpContext
from_base64 c decode b64_key_material = from_decoded c (decode (trim b64_key_material))

-- The context and the key as base64, made by `encode`, which is third-party code.
unfoldable pub generate : Crypto → (List ℕ → List ℕ) → List ℕ → Result (SrtpContext × List ℕ)
generate c encode material = do
  ctx ← Context.new c (take 16 material) (drop 16 material)
  ok (ctx, encode material)
