-- ===== src/Base/Int.antt =====
-- Signed integers over the native numbers, with the arithmetic shift and the clamp of Rust's.
use Prim.Native.Nat.{ℕ, suc, ◌+◌, ◌-◌, ◌*◌, ◌/◌, ◌%◌, ◌^◌, ◌≤◌}
use mathlib.Core.Bool.{Bool}
use native.Mathlib.Omega.{arith}
use rtp_engine.Base.Tests.{leb, ◌==◌, if◌then◌else◌}

-- `negsuc n` is -(n + 1).
pub data ℤ : Type 0 where
  pos negsuc : ℕ → ℤ

abbrev pub pos_part : ℤ → ℕ
pos_part (pos n) = n
pos_part (negsuc n) = 0

abbrev pub neg_part : ℤ → ℕ
neg_part (pos n) = 0
neg_part (negsuc n) = suc n

abbrev pub sub_ℕ : ℕ → ℕ → ℤ
sub_ℕ a b = if leb b a then pos (a - b) else negsuc (b - a - 1)

infixl 65 ◌+ℤ◌ ◌-ℤ◌
infixl 70 ◌*ℤ◌
infix 50 ◌≤ℤ◌ ◌==ℤ◌
unfoldable pub ◌+ℤ◌ : ℤ → ℤ → ℤ
a +ℤ b = sub_ℕ (pos_part a + pos_part b) (neg_part a + neg_part b)

unfoldable pub ◌-ℤ◌ : ℤ → ℤ → ℤ
a -ℤ b = sub_ℕ (pos_part a + neg_part b) (neg_part a + pos_part b)

unfoldable pub ◌*ℤ◌ : ℤ → ℤ → ℤ
a *ℤ b =
    sub_ℕ (pos_part a * pos_part b + neg_part a * neg_part b)
      (pos_part a * neg_part b + neg_part a * pos_part b)

abbrev pub neg_ℤ : ℤ → ℤ
neg_ℤ a = pos 0 -ℤ a

abbrev pub ◌≤ℤ◌ : ℤ → ℤ → Type 0
a ≤ℤ b = pos_part a + neg_part b ≤ pos_part b + neg_part a

abbrev pub leb_ℤ : ℤ → ℤ → Bool
leb_ℤ a b = leb (pos_part a + neg_part b) (pos_part b + neg_part a)

abbrev pub ◌==ℤ◌ : ℤ → ℤ → Bool
a ==ℤ b = (pos_part a + neg_part b) == (pos_part b + neg_part a)

-- `x >> places`, towards minus infinity.
unfoldable pub shr : ℤ → ℕ → ℤ
shr (pos n) places = pos (n / 2 ^ places)
shr (negsuc n) places = negsuc (n / 2 ^ places)

-- The lowest bits, in two's complement.
unfoldable pub low_bits : ℤ → ℕ → ℕ
low_bits (pos n) width = n % 2 ^ width
low_bits (negsuc n) width = 2 ^ width - 1 - n % 2 ^ width

-- `x.clamp(least, most)`, for bounds in order.
unfoldable pub clamp_ℤ : ℤ → ℤ → ℤ → ℤ
clamp_ℤ least most x = if leb_ℤ x least then least else if leb_ℤ most x then most else x

pub clamp_ℤ-below : (least most x : ℤ) → least ≤ℤ most → clamp_ℤ least most x ≤ℤ most
unfolding clamp_ℤ
clamp_ℤ-below least most x h = ground arith

pub clamp_ℤ-above : (least most x : ℤ) → least ≤ℤ most → least ≤ℤ clamp_ℤ least most x
unfolding clamp_ℤ
clamp_ℤ-above least most x h = ground arith
