-- ===== src/Srtp/Window/Bits.antt =====
-- The laws of the bit operations on the replay bitmap.
use rtp_engine.Base.{
  ℕ, zero, suc, ◌+◌, ◌-◌, ◌*◌, ◌/◌, ◌%◌, ◌^◌, ◌<◌, ◌≡◌, refl, ◌∙◌, true, false, ◌&&◌, leb, ◌==◌,
  if◌then◌else◌, arith,
}
use native.Mathlib.Nat.{pow-suc}
use rtp_engine.Srtp.Window.{test_bit, set_bit, shl64}

pub test_bit-zero : (k : ℕ) → test_bit 0 k ≡ false
unfolding test_bit
test_bit-zero zero = refl
test_bit-zero (suc k) = test_bit-zero k

pub test_bit-set_bit :
    (s k j : ℕ) → test_bit (set_bit s k) j ≡ (if j == k then true else test_bit s j)
unfolding test_bit set_bit
test_bit-set_bit s zero zero = ground arith
test_bit-set_bit s zero (suc j) =
    let e : (s / 2 * 2 + 1) / 2 ≡ s / 2 = omega arith in rw e (ground arith)
test_bit-set_bit s (suc k) zero = ground arith
test_bit-set_bit s (suc k) (suc j) =
    let e : (set_bit (s / 2) k * 2 + s % 2) / 2 ≡ set_bit (s / 2) k = omega arith in
    rw e (test_bit-set_bit (s / 2) k j ∙ ground arith)

-- Halving a word of `suc n` bits.
test_bit-double : (s j : ℕ) → test_bit (s * 2) (suc j) ≡ test_bit s j
unfolding test_bit
test_bit-double s j = let e : s * 2 / 2 ≡ s = omega arith in rw e

mod-double-half : (x m : ℕ) → 0 < m → x % (2 * m) / 2 ≡ x / 2 % m
mod-double-half x m h = grind arith

mod-double-low : (x m : ℕ) → 0 < m → x % (2 * m) % 2 ≡ x % 2
mod-double-low x m h = grind arith

two_pow_suc : (n : ℕ) → 2 ^ suc n ≡ 2 * 2 ^ n
two_pow_suc n = omega (arith, pow-suc 2 n)

two_pow_pos : (n : ℕ) → 0 < 2 ^ n
two_pow_pos zero = omega arith
two_pow_pos (suc n) = omega (arith, two_pow_suc n, two_pow_pos n)

-- Cutting a word to `n` bits leaves the bits below `n`.
test_bit-mod : (n x j : ℕ) → j < n → test_bit (x % 2 ^ n) j ≡ test_bit x j
unfolding test_bit
test_bit-mod zero x j h = absurd (omega arith)
test_bit-mod (suc n) x zero h = rw (two_pow_suc n, mod-double-low x (2 ^ n) (two_pow_pos n))
test_bit-mod (suc n) x (suc j) h =
    rw (two_pow_suc n, mod-double-half x (2 ^ n) (two_pow_pos n))
      (test_bit-mod n (x / 2) j (omega arith))

test_bit-shl64_step :
    (s j : ℕ) → suc j < 64 → test_bit (s * 2 % 18446744073709551616) (suc j) ≡ test_bit s j
test_bit-shl64_step s j h = test_bit-mod 64 (s * 2) (suc j) h ∙ test_bit-double s j

test_bit-shl64_low : (s : ℕ) → test_bit (s * 2 % 18446744073709551616) 0 ≡ false
unfolding test_bit
test_bit-shl64_low s = ground arith

pub test_bit-shl64 : (s a j : ℕ) → j < 64 → test_bit (shl64 s a) j ≡ (leb a j && test_bit s (j - a))
unfolding shl64
test_bit-shl64 s zero j h = ground arith
test_bit-shl64 s (suc a) zero h = ground (arith, test_bit-shl64_low (shl64 s a))
test_bit-shl64 s (suc a) (suc j) h =
    test_bit-shl64_step (shl64 s a) j h ∙ test_bit-shl64 s a j (omega arith) ∙ ground arith
