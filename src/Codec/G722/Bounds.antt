-- ===== src/Codec/G722/Bounds.antt =====
-- The state of a band of G.722 (src/codec/g722.rs) stays within its ranges, whatever is coded.
use rtp_engine.Base.{
  ℕ, ◌+◌, ◌*◌, ◌/◌, ◌≤◌, ◌<◌, ◌≡◌, refl, List, [], ◌∷◌, take, drop, All, All-take, All-drop,
  All-append, get_or, arith,
}
use rtp_engine.Base.Int.{
  ℤ, pos, negsuc, ◌+ℤ◌, ◌-ℤ◌, ◌*ℤ◌, neg_ℤ, ◌≤ℤ◌, shr, low_bits, clamp_ℤ-below, clamp_ℤ-above,
  clamp_ℤ,
}
use rtp_engine.Codec.G722.Tables.{ilb, qm4, qm2}
use rtp_engine.Codec.G722.Band.{
  Band, Three, i16_max, saturate, antilog, scale, predict, uppol1, uppol2, upzero, filtep,
}
use rtp_engine.Codec.G722.Encoder.{low_max_nb, high_max_nb, adapt_low, adapt_high}
use rtp_engine.Codec.G722.Range.{
  Fits, saturate-Fits, get_or-Fits, scaled-Fits, antilog-within, get_or-below,
}

-- The second pole coefficient within ±0.75, the first within what keeps the filter stable.
abbrev pub PolesStable : ℤ → ℤ → Type 0
PolesStable a1 a2 =
    (negsuc 12287 ≤ℤ a2)
    × (a2 ≤ℤ pos 12288)
    × (neg_ℤ (pos 15360 -ℤ a2) ≤ℤ a1)
    × (a1 ≤ℤ pos 15360 -ℤ a2)

-- The scale factor in its range.
abbrev pub ScaleBounded : ℤ → Band → Type 0
ScaleBounded most band =
    (pos 0 ≤ℤ band.nb) × (band.nb ≤ℤ most) × (pos 0 ≤ℤ band.det) × (band.det ≤ℤ i16_max)

-- The poles stable, and all signals and coefficients in 16 bits.
abbrev pub PredictorBounded : Band → Type 0
PredictorBounded band =
    PolesStable band.a.1 band.a.2
    × Fits band.s
    × Fits band.sp
    × Fits band.sz
    × (Fits band.r.1 × Fits band.r.2)
    × (Fits band.p.1 × Fits band.p.2)
    × All Fits band.d
    × All Fits band.b

abbrev pub Bounded : ℤ → Band → Type 0
Bounded most band = ScaleBounded most band × PredictorBounded band

uppol2-within : (a p : Three) → (negsuc 12287 ≤ℤ uppol2 a p) × (uppol2 a p ≤ℤ pos 12288)
unfolding uppol2
uppol2-within a p = (
  clamp_ℤ-above (negsuc 12287) (pos 12288) _ (omega arith),
  clamp_ℤ-below (negsuc 12287) (pos 12288) _ (omega arith),
)

limit :
    (a2 : ℤ) → negsuc 12287 ≤ℤ a2 → a2 ≤ℤ pos 12288 → saturate (pos 15360 -ℤ a2) ≡ pos 15360 -ℤ a2
unfolding saturate clamp_ℤ ◌-ℤ◌
limit a2 above below = ground arith

in_order :
    (a2 : ℤ) → negsuc 12287 ≤ℤ a2 → a2 ≤ℤ pos 12288 → neg_ℤ (pos 15360 -ℤ a2) ≤ℤ pos 15360 -ℤ a2
unfolding ◌-ℤ◌
in_order a2 above below = ground arith

uppol1-within :
    (a p : Three) (a2 : ℤ)
    → negsuc 12287 ≤ℤ a2
    → a2 ≤ℤ pos 12288
    → (neg_ℤ (pos 15360 -ℤ a2) ≤ℤ uppol1 a p a2) × (uppol1 a p a2 ≤ℤ pos 15360 -ℤ a2)
unfolding uppol1
uppol1-within a p a2 above below =
    rw (limit a2 above below)
      (clamp_ℤ-above _ _ _ (in_order a2 above below), clamp_ℤ-below _ _ _ (in_order a2 above below))

upzero-Fits :
    (d : ℤ) (differences coefficients : List ℤ) → All Fits (upzero d differences coefficients)
unfolding upzero
upzero-Fits d [] coefficients = tt
upzero-Fits d (x ∷ differences) [] = tt
upzero-Fits d (x ∷ differences) (y ∷ coefficients) =
    (saturate-Fits _, upzero-Fits d differences coefficients)

predict-PredictorBounded :
    (band : Band) (d : ℤ) → PredictorBounded band → Fits d → PredictorBounded (predict band d)
unfolding predict filtep
predict-PredictorBounded band d (stable, s, sp, sz, r, p, ds, bs) fits =
    let p0 : Three = (saturate (band.sz +ℤ d), band.p.1, band.p.2) in
    let (above, below) = uppol2-within band.a p0 in
    let (lowest, highest) = uppol1-within band.a p0 (uppol2 band.a p0) above below in
    (
      (above, below, lowest, highest),
      saturate-Fits _,
      saturate-Fits _,
      saturate-Fits _,
      (saturate-Fits _, r.0),
      (saturate-Fits _, p.0),
      (fits, All-take Fits 6 (d ∷ drop 1 band.d) (fits, All-drop Fits 1 band.d ds)),
      All-append Fits (take 1 band.b) _ (All-take Fits 1 band.b bs) (upzero-Fits d _ _),
    )

-- The places to shift are at least -1 for a log scale factor in its range.
places_above :
    (most shift : ℕ) (nb : ℤ)
    → pos 0 ≤ℤ nb
    → nb ≤ℤ pos most
    → most < (shift + 2) * 2048
    → negsuc 0 ≤ℤ pos shift -ℤ shr nb 11
unfolding ◌-ℤ◌ shr
places_above most shift (negsuc n) positive within small = absurd (omega arith)
places_above most shift (pos n) positive within small = ground arith

scale-ScaleBounded :
    (band : Band) (w : ℤ) (most shift : ℕ)
    → most < (shift + 2) * 2048
    → ScaleBounded (pos most) (scale band w (pos most) (pos shift))
unfolding scale
scale-ScaleBounded band w most shift small =
    let nb = clamp_ℤ (pos 0) (pos most) (shr (band.nb *ℤ pos 127) 7 +ℤ w) in
    let above : pos 0 ≤ℤ nb = clamp_ℤ-above (pos 0) (pos most) _ (omega arith) in
    let below : nb ≤ℤ pos most = clamp_ℤ-below (pos 0) (pos most) _ (omega arith) in
    let wd1 = low_bits (shr nb 6) 5 in
    let entry = get_or ilb wd1 0 in
    let small_entry : entry < 4009 = get_or-below 4009 ilb wd1 (omega arith) refl in
    let det : antilog entry (pos shift -ℤ shr nb 11) ≤ 8016 =
      antilog-within entry _ (omega arith) (places_above most shift nb above below small) in
    (above, below, omega arith, omega arith)

predict-ScaleBounded :
    (most : ℤ) (band : Band) (d : ℤ) → ScaleBounded most band → ScaleBounded most (predict band d)
unfolding predict
predict-ScaleBounded most band d bounded = bounded

scale-PredictorBounded :
    (band : Band) (w most shift : ℤ)
    → PredictorBounded band
    → PredictorBounded (scale band w most shift)
unfolding scale
scale-PredictorBounded band w most shift bounded = bounded

-- A band takes a code and stays in its ranges.
adapt-Bounded :
    (band : Band) (w factor : ℤ) (most shift : ℕ)
    → most < (shift + 2) * 2048
    → Fits factor
    → Bounded (pos most) band
    → Bounded
        (pos most)
        (predict (scale band w (pos most) (pos shift)) (shr (band.det *ℤ factor) 15))
adapt-Bounded band w factor most shift small fits ((above, below, positive, within), bounded) =
    let scaled = scale band w (pos most) (pos shift) in
    let d = shr (band.det *ℤ factor) 15 in
    (
      predict-ScaleBounded (pos most) scaled d (scale-ScaleBounded band w most shift small),
      predict-PredictorBounded scaled d
          (scale-PredictorBounded band w (pos most) (pos shift) bounded)
          (scaled-Fits band.det factor positive within fits),
    )

pub adapt_low-Bounded :
    (low : Band) (ilow : ℕ) → Bounded low_max_nb low → Bounded low_max_nb (adapt_low low ilow)
unfolding adapt_low
adapt_low-Bounded low ilow bounded =
    adapt-Bounded low _ _ 18432 8 (omega arith) (get_or-Fits qm4 (ilow / 4) refl) bounded

pub adapt_high-Bounded :
    (high : Band) (ihigh : ℕ)
    → Bounded high_max_nb high
    → Bounded high_max_nb (adapt_high high ihigh)
unfolding adapt_high
adapt_high-Bounded high ihigh bounded =
    adapt-Bounded high _ _ 22528 10 (omega arith) (get_or-Fits qm2 ihigh refl) bounded
