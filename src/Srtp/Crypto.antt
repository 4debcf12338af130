-- ===== src/Srtp/Crypto.antt =====
-- The transforms of src/srtp.rs: `build_iv`, `build_rtcp_iv`, `aes_128_cm_encrypt`, the two
-- authentication tags, and the key derivation. AES in counter mode and HMAC-SHA1 are third-party
-- code, and parameters: the keystream under a key and an initial counter block, and the 20-byte
-- authentication code. `Hmac::new_from_slice` takes a key of any length, so its error path is left
-- out.
pub mod Xor
pub mod Toy
use Prim.Native.Nat.{bit_xor}
use rtp_engine.Base.{
  ℕ, zero, suc, ◌+◌, ◌≡◌, refl, ap, Bool, true, false, ◌&&◌, List, [], ◌∷◌, ◌++◌, ◌==◌, length,
  take, drop, set, replicate, IsBytes, u16_to_be, u32_to_be,
}
use rtp_engine.Error.{Error, Result, ok, err, srtp}
use rtp_engine.Base.{if◌then◌else◌}
use Xor.{xor_bytes}

pub record Crypto : Type 0 where
  -- the first `n` bytes of the AES-128 counter-mode keystream
  pub keystream : List ℕ → List ℕ → ℕ → List ℕ
  pub length-keystream : (key iv : List ℕ) (n : ℕ) → length (keystream key iv n) ≡ n
  pub keystream-IsBytes : (key iv : List ℕ) (n : ℕ) → IsBytes (keystream key iv n)
  pub hmac_sha1 : List ℕ → List ℕ → List ℕ
  pub length-hmac_sha1 : (key message : List ℕ) → length (hmac_sha1 key message) ≡ 20

abbrev pub auth_tag_len : ℕ
auth_tag_len = 10

abbrev pub master_key_len : ℕ
master_key_len = 16

abbrev pub master_salt_len : ℕ
master_salt_len = 14

abbrev pub keying_material_len : ℕ
keying_material_len = 30

-- A 16-byte block with the salt of 14 bytes added in: `for i in 0..14 { iv[i] ^= salt[i]; }`
unfoldable pub salted : List ℕ → List ℕ → List ℕ
salted salt block = xor_bytes (take 14 block) salt ++ drop 14 block

unfoldable pub build_iv : List ℕ → ℕ → ℕ → ℕ → List ℕ
unfolding salted
build_iv session_salt ssrc roc seq =
    salted session_salt
      (replicate 4 0 ++ (u32_to_be ssrc ++ (u32_to_be roc ++ (u16_to_be seq ++ replicate 2 0))))

unfoldable pub build_rtcp_iv : List ℕ → ℕ → ℕ → List ℕ
unfolding salted
build_rtcp_iv session_salt ssrc index =
    salted session_salt
      (replicate 4 0 ++ (u32_to_be ssrc ++ (replicate 2 0 ++ (u32_to_be index ++ replicate 2 0))))

-- `constant_time_eq`, less its timing: `ct_eq` is false on slices of different lengths.
unfoldable pub constant_time_eq : List ℕ → List ℕ → Bool
constant_time_eq [] [] = true
constant_time_eq [] (_ ∷ _) = false
constant_time_eq (_ ∷ _) [] = false
constant_time_eq (x ∷ xs) (y ∷ ys) = x == y && constant_time_eq xs ys

module _ (c : Crypto) where
  open c use {keystream, hmac_sha1}

  unfoldable pub aes_128_cm_encrypt : List ℕ → List ℕ → List ℕ → List ℕ
  aes_128_cm_encrypt key iv bytes = xor_bytes bytes (keystream key iv (length bytes))

  unfoldable pub compute_rtp_auth_tag : List ℕ → List ℕ → ℕ → List ℕ
  compute_rtp_auth_tag auth_key portion roc =
      take auth_tag_len (hmac_sha1 auth_key (portion ++ u32_to_be roc))

  unfoldable pub compute_rtcp_auth_tag : List ℕ → List ℕ → List ℕ
  compute_rtcp_auth_tag auth_key portion = take auth_tag_len (hmac_sha1 auth_key portion)

  -- `output` is zeroed before the keystream is applied; `n` is its length.
  unfoldable pub prf_aes_cm : List ℕ → List ℕ → ℕ → ℕ → Result (List ℕ)
  prf_aes_cm master_key master_salt label n =
      let x = xor_bytes (replicate 7 0 ++ (label ∷ replicate 6 0)) master_salt in
      if length master_key == 16
      then ok (aes_128_cm_encrypt master_key (x ++ replicate 2 0) (replicate n 0))
      else err srtp

  unfoldable pub derive_session_key : List ℕ → List ℕ → ℕ → Result (List ℕ)
  unfolding prf_aes_cm
  derive_session_key master_key master_salt label = prf_aes_cm master_key master_salt label 16

  unfoldable pub derive_session_salt : List ℕ → List ℕ → ℕ → Result (List ℕ)
  unfolding prf_aes_cm
  derive_session_salt master_key master_salt label = prf_aes_cm master_key master_salt label 14

  unfoldable pub derive_session_auth_key : List ℕ → List ℕ → ℕ → Result (List ℕ)
  unfolding prf_aes_cm
  derive_session_auth_key master_key master_salt label = prf_aes_cm master_key master_salt label 20
