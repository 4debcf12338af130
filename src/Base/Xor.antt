-- ===== src/Base/Xor.antt =====
-- Exclusive or of words, digit by digit.
use Prim.Native.Nat.{
  ℕ, zero, suc, ◌+◌, ◌*◌, ◌/◌, ◌%◌, ◌^◌, ◌≤◌, ◌<◌, bit_xor, bit_xor-bitwise, digits, differ,
}
use mathlib.Core.Path.{◌≡◌, refl, ap, ap₂, sym, ◌∙◌}
use native.Mathlib.Omega.{arith}
use native.Mathlib.Nat.{pow-suc}

-- Digits to spare change nothing.
digits-fuel :
    (n m a b : ℕ) → a ≤ n → a ≤ m → digits (λ b. b) differ n a b ≡ digits (λ b. b) differ m a b
digits-fuel zero zero a b p q = refl
digits-fuel zero (suc m) zero b p q = refl
digits-fuel (suc n) zero zero b p q = refl
digits-fuel (suc n) (suc m) zero b p q = refl
digits-fuel zero (suc m) (suc a) b p q = absurd (omega arith)
digits-fuel (suc n) zero (suc a) b p q = absurd (omega arith)
digits-fuel (suc n) (suc m) (suc a) b p q =
    ap (λ x. x * 2 + differ (suc a % 2) (b % 2))
      (digits-fuel n m (suc a / 2) (b / 2) (omega arith) (omega arith))

bit_xor_zero : (b : ℕ) → bit_xor 0 b ≡ b
bit_xor_zero b = λ i. bit_xor-bitwise 0 b i

-- The lowest digit, and the others.
pub bit_xor_step : (a b : ℕ) → bit_xor a b ≡ bit_xor (a / 2) (b / 2) * 2 + differ (a % 2) (b % 2)
bit_xor_step zero b = omega (arith, bit_xor_zero b, bit_xor_zero (b / 2))
bit_xor_step (suc a) b =
    (λ i. bit_xor-bitwise (suc a) b i)
    ∙ ap (λ x. x * 2 + differ (suc a % 2) (b % 2))
        (digits-fuel a (suc a / 2) (suc a / 2) (b / 2) (omega arith) (omega arith))
    ∙ ap (λ x. x * 2 + differ (suc a % 2) (b % 2))
        (λ i. sym (λ j. bit_xor-bitwise (suc a / 2) (b / 2) j) i)

-- Both digits are below 2, so one digit comes back when it is changed twice.
differ_undo : (x y : ℕ) → x < 2 → y < 2 → differ (differ x y) y ≡ x
differ_undo zero zero p q = refl
differ_undo zero (suc zero) p q = refl
differ_undo (suc zero) zero p q = refl
differ_undo (suc zero) (suc zero) p q = refl
differ_undo (suc (suc x)) y p q = absurd (omega arith)
differ_undo zero (suc (suc y)) p q = absurd (omega arith)
differ_undo (suc zero) (suc (suc y)) p q = absurd (omega arith)

differ-lt : (x y : ℕ) → x < 2 → y < 2 → differ x y < 2
differ-lt zero y p q = q
differ-lt (suc zero) zero p q = omega arith
differ-lt (suc zero) (suc zero) p q = omega arith
differ-lt (suc zero) (suc (suc y)) p q = absurd (omega arith)
differ-lt (suc (suc x)) y p q = absurd (omega arith)

digit_lt : (a : ℕ) → a % 2 < 2
digit_lt a = omega arith

undo_half :
    (a k : ℕ) → bit_xor (bit_xor (a / 2) (k / 2)) (k / 2) ≡ a / 2 → bit_xor (bit_xor a k) k ≡ a
undo_half a k half =
    let low = differ (a % 2) (k % 2) in
    let small = differ-lt (a % 2) (k % 2) (digit_lt a) (digit_lt k) in
    let back = differ_undo (a % 2) (k % 2) (digit_lt a) (digit_lt k) in
    let x = bit_xor a k in
    let step = bit_xor_step a k in
    let high : x / 2 ≡ bit_xor (a / 2) (k / 2) = omega (arith, step, small) in
    let digit : x % 2 ≡ low = omega (arith, step, small) in
    bit_xor_step x k
    ∙ ap₂ (λ h d. bit_xor h (k / 2) * 2 + differ d (k % 2)) high digit
    ∙ omega (arith, half, back)

undo_within : (n a k : ℕ) → a + k ≤ n → bit_xor (bit_xor a k) k ≡ a
undo_within n zero zero le = refl
undo_within zero (suc a) k le = absurd (omega arith)
undo_within zero zero (suc k) le = absurd (omega arith)
undo_within (suc n) zero (suc k) le =
    undo_half 0 (suc k) (undo_within n 0 (suc k / 2) (omega arith))
undo_within (suc n) (suc a) k le =
    undo_half (suc a) k (undo_within n (suc a / 2) (k / 2) (omega arith))

-- A key applied twice is undone.
pub bit_xor_undo : (a k : ℕ) → bit_xor (bit_xor a k) k ≡ a
bit_xor_undo a k = undo_within (a + k) a k (omega arith)

-- A word stays a word of `n` bits.
pub bit_xor-lt : (n a k : ℕ) → a < 2 ^ n → k < 2 ^ n → bit_xor a k < 2 ^ n
bit_xor-lt zero zero zero p q = omega arith
bit_xor-lt zero (suc a) k p q = absurd (omega arith)
bit_xor-lt zero zero (suc k) p q = absurd (omega arith)
bit_xor-lt (suc n) a k p q =
    let power = pow-suc 2 n in
    let half = bit_xor-lt n (a / 2) (k / 2) (omega (arith, power)) (omega (arith, power)) in
    omega
      (arith, power, half, bit_xor_step a k, differ-lt (a % 2) (k % 2) (digit_lt a) (digit_lt k))
