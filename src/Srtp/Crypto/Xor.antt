-- ===== src/Srtp/Crypto/Xor.antt =====
-- `^=` of a slice with a keystream, byte by byte, undoes itself.
use Prim.Native.Nat.{bit_xor}
use rtp_engine.Base.{ℕ, suc, ◌≡◌, refl, ap, ap₂, List, [], ◌∷◌, length, IsBytes, bit_xor_undo}

unfoldable pub xor_bytes : List ℕ → List ℕ → List ℕ
xor_bytes [] _ = []
xor_bytes (x ∷ xs) [] = x ∷ xs
xor_bytes (x ∷ xs) (k ∷ ks) = bit_xor x k ∷ xor_bytes xs ks

pub length-xor_bytes : (xs ks : List ℕ) → length (xor_bytes xs ks) ≡ length xs
unfolding xor_bytes
length-xor_bytes [] ks = refl
length-xor_bytes (x ∷ xs) [] = refl
length-xor_bytes (x ∷ xs) (k ∷ ks) = ap suc (length-xor_bytes xs ks)

pub xor_bytes_undo :
    (xs ks : List ℕ) → IsBytes xs → IsBytes ks → xor_bytes (xor_bytes xs ks) ks ≡ xs
unfolding xor_bytes
xor_bytes_undo [] ks a b = refl
xor_bytes_undo (x ∷ xs) [] a b = refl
xor_bytes_undo (x ∷ xs) (k ∷ ks) a b = ap₂ ◌∷◌ (bit_xor_undo x k) (xor_bytes_undo xs ks a.1 b.1)
