-- ===== src/Codec/G722/Range.antt =====
-- Ranges of the numbers of G.722 (src/codec/g722.rs): what saturates, shifts and clamps.
use rtp_engine.Base.{
  ℕ, zero, suc, ◌*◌, ◌/◌, ◌^◌, ◌≤◌, ◌≡◌, ◌<◌, Bool, true, ◌&&◌, List, [], ◌∷◌, ltb, get_or, arith,
}
use native.Mathlib.Nat.{mul-le-mul, div-le_self}
use rtp_engine.Base.Int.{ℤ, pos, negsuc, ◌*ℤ◌, ◌≤ℤ◌, shr, leb_ℤ, clamp_ℤ-below, clamp_ℤ-above}
use rtp_engine.Codec.G722.Band.{i16_min, i16_max, saturate, antilog}

-- The number fits 16 bits.
abbrev pub Fits : ℤ → Type 0
Fits x = (i16_min ≤ℤ x) × (x ≤ℤ i16_max)

pub saturate-Fits : (x : ℤ) → Fits (saturate x)
unfolding saturate
saturate-Fits x =
    (clamp_ℤ-above i16_min i16_max x (omega arith), clamp_ℤ-below i16_min i16_max x (omega arith))

abbrev pub all_fit : List ℤ → Bool
all_fit [] = true
all_fit (x ∷ xs) = (leb_ℤ i16_min x && leb_ℤ x i16_max) && all_fit xs

pub get_or-Fits : (xs : List ℤ) (i : ℕ) → all_fit xs ≡ true → Fits (get_or xs i (pos 0))
get_or-Fits [] i fit = omega arith
get_or-Fits (x ∷ xs) zero fit = ground arith
get_or-Fits (x ∷ xs) (suc i) fit = get_or-Fits xs i (ground arith)

abbrev pub all_below : ℕ → List ℕ → Bool
all_below bound [] = true
all_below bound (x ∷ xs) = ltb x bound && all_below bound xs

pub get_or-below :
    (bound : ℕ) (xs : List ℕ) (i : ℕ)
    → 0 < bound
    → all_below bound xs ≡ true
    → get_or xs i 0 < bound
get_or-below bound [] i positive below = positive
get_or-below bound (x ∷ xs) zero positive below = ground arith
get_or-below bound (x ∷ xs) (suc i) positive below = get_or-below bound xs i positive (ground arith)

mul_within : (a b : ℕ) → a ≤ 32767 → b ≤ 32768 → a * b ≤ 1073741823
mul_within a b h k = let bounded : a * b ≤ 32767 * 32768 = mul-le-mul h k in omega arith

-- The product of a scale factor and a number of 16 bits, shifted.
pub scaled-Fits :
    (det factor : ℤ) → pos 0 ≤ℤ det → det ≤ℤ i16_max → Fits factor → Fits (shr (det *ℤ factor) 15)
unfolding ◌*ℤ◌ shr
scaled-Fits (negsuc n) factor positive within fits = absurd (omega arith)
scaled-Fits (pos det) (pos factor) positive within fits =
    ground (arith, mul_within det factor (omega arith) (omega arith))
scaled-Fits (pos det) (negsuc factor) positive within fits =
    ground (arith, mul_within det (suc factor) (omega arith) (omega arith))

pub antilog-within :
    (entry : ℕ) (wd2 : ℤ) → entry ≤ 4008 → negsuc 0 ≤ℤ wd2 → antilog entry wd2 ≤ 8016
unfolding antilog
antilog-within entry (pos right) small above =
    let less : entry / 2 ^ right ≤ entry = div-le_self entry (2 ^ right) in omega arith
antilog-within entry (negsuc zero) small above = omega arith
antilog-within entry (negsuc (suc left)) small above = absurd (omega arith)
