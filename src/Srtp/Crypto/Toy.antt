-- ===== src/Srtp/Crypto/Toy.antt =====
-- A keystream and an authentication code that are easy to compute, to run the model of src/srtp.rs.
use rtp_engine.Base.{
  ℕ, zero, suc, ◌%◌, ◌≡◌, refl, List, ◌∷◌, arith, length, replicate, length-replicate, IsBytes,
  u32_at,
}
use rtp_engine.Srtp.Crypto.{Crypto}

unfoldable pub toy_keystream : List ℕ → List ℕ → ℕ → List ℕ
toy_keystream key iv n = replicate n 0x5a

pub length-toy_keystream : (key iv : List ℕ) (n : ℕ) → length (toy_keystream key iv n) ≡ n
unfolding toy_keystream
length-toy_keystream key iv n = length-replicate n 0x5a

pub toy_keystream-IsBytes : (key iv : List ℕ) (n : ℕ) → IsBytes (toy_keystream key iv n)
unfolding toy_keystream
toy_keystream-IsBytes key iv zero = tt
toy_keystream-IsBytes key iv (suc n) = (omega arith, toy_keystream-IsBytes key iv n)

unfoldable pub toy_hmac : List ℕ → List ℕ → List ℕ
toy_hmac key message = (length message % 256) ∷ replicate 19 (u32_at message 2 % 251)

pub length-toy_hmac : (key message : List ℕ) → length (toy_hmac key message) ≡ 20
unfolding toy_hmac
length-toy_hmac key message = refl

abbrev pub toy : Crypto
toy = record {
  keystream = toy_keystream;
  length-keystream = length-toy_keystream;
  keystream-IsBytes = toy_keystream-IsBytes;
  hmac_sha1 = toy_hmac;
  length-hmac_sha1 = length-toy_hmac;
}
