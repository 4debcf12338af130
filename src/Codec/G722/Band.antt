-- ===== src/Codec/G722/Band.antt =====
-- `Band` of src/codec/g722.rs: the predictor and the scale factor of one sub-band.
use rtp_engine.Base.{
  ℕ, suc, ◌*◌, ◌/◌, ◌^◌, Bool, List, [], ◌∷◌, ◌++◌, take, drop, replicate, get_or, if◌then◌else◌,
}
use rtp_engine.Base.Int.{
  ℤ, pos, negsuc, ◌+ℤ◌, ◌-ℤ◌, ◌*ℤ◌, neg_ℤ, ◌==ℤ◌, shr, low_bits, clamp_ℤ, leb_ℤ,
}
use rtp_engine.Codec.G722.Tables.{ilb}

-- `i16::MIN` and `i16::MAX`
abbrev pub i16_min : ℤ
i16_min = negsuc 32767

abbrev pub i16_max : ℤ
i16_max = pos 32767

unfoldable pub saturate : ℤ → ℤ
saturate x = clamp_ℤ i16_min i16_max x

-- `[i32; 3]`
abbrev pub Three : Type 0
Three = ℤ × ℤ × ℤ

pub record Band : Type 0 where
  pub s : ℤ
  pub sp : ℤ
  pub sz : ℤ
  pub r : Three
  pub a : Three
  pub ap : Three
  pub p : Three
  -- The last three have 7 entries.
  pub d : List ℤ
  pub b : List ℤ
  pub bp : List ℤ
  pub nb : ℤ
  pub det : ℤ

abbrev pub zeros : Three
zeros = (pos 0, pos 0, pos 0)

unfoldable pub new : ℤ → Band
new det = record {
  s = pos 0;
  sp = pos 0;
  sz = pos 0;
  r = zeros;
  a = zeros;
  ap = zeros;
  p = zeros;
  d = replicate 7 (pos 0);
  b = replicate 7 (pos 0);
  bp = replicate 7 (pos 0);
  nb = pos 0;
  det = det;
}

-- `wd3` of `scale`: the antilogarithm, moved by `wd2` places to the right.
unfoldable pub antilog : ℕ → ℤ → ℕ
antilog entry (pos right) = entry / 2 ^ right
antilog entry (negsuc left) = entry * 2 ^ suc left

unfoldable pub scale : Band → ℤ → ℤ → ℤ → Band
unfolding antilog
scale band w max_nb shift =
    let nb = clamp_ℤ (pos 0) max_nb (shr (band.nb *ℤ pos 127) 7 +ℤ w) in
    let wd1 = low_bits (shr nb 6) 5 in
    let wd2 = shift -ℤ shr nb 11 in
    record band { nb = nb; det = pos (antilog (get_or ilb wd1 0) wd2 * 4) }

abbrev pub sign : ℤ → ℤ
sign x = shr x 15

abbrev pub same_sign : ℤ → ℤ → Bool
same_sign x y = sign x ==ℤ sign y

-- UPPOL2: the new second pole coefficient.
unfoldable pub uppol2 : Three → Three → ℤ
uppol2 a p =
    let wd1 = saturate (a.1 *ℤ pos 4) in
    let signed = if same_sign p.0 p.1 then neg_ℤ wd1 else wd1 in
    let wd2 = if leb_ℤ signed (pos 32767) then signed else pos 32767 in
    let wd3 = shr wd2 7 +ℤ (if same_sign p.0 p.2 then pos 128 else neg_ℤ (pos 128)) in
    clamp_ℤ (negsuc 12287) (pos 12288) (wd3 +ℤ shr (a.2 *ℤ pos 32512) 15)

-- UPPOL1: the new first pole coefficient, held within the limit that the second leaves.
unfoldable pub uppol1 : Three → Three → ℤ → ℤ
uppol1 a p ap2 =
    let wd1 = if same_sign p.0 p.1 then pos 192 else neg_ℤ (pos 192) in
    let wd2 = shr (a.1 *ℤ pos 32640) 15 in
    let limit = saturate (pos 15360 -ℤ ap2) in clamp_ℤ (neg_ℤ limit) limit (saturate (wd1 +ℤ wd2))

-- UPZERO: the new zero coefficients, from the earlier differences and the coefficients.
unfoldable pub upzero : ℤ → List ℤ → List ℤ → List ℤ
upzero d [] coefficients = []
upzero d differences [] = []
upzero d (earlier ∷ differences) (coefficient ∷ coefficients) =
    let step = if d ==ℤ pos 0 then pos 0 else pos 128 in
    let wd2 = if same_sign earlier d then step else neg_ℤ step in
    let wd3 = shr (coefficient *ℤ pos 32640) 15 in
    saturate (wd2 +ℤ wd3) ∷ upzero d differences coefficients

-- FILTEZ, before it is saturated.
unfoldable pub filtez : List ℤ → List ℤ → ℤ
filtez [] differences = pos 0
filtez coefficients [] = pos 0
filtez (coefficient ∷ coefficients) (difference ∷ differences) =
    filtez coefficients differences +ℤ shr (coefficient *ℤ saturate (difference +ℤ difference)) 15

-- FILTEP
unfoldable pub filtep : Three → Three → ℤ
filtep a r =
    let wd1 = shr (a.1 *ℤ saturate (r.1 +ℤ r.1)) 15 in
    let wd2 = shr (a.2 *ℤ saturate (r.2 +ℤ r.2)) 15 in saturate (wd1 +ℤ wd2)

unfoldable pub predict : Band → ℤ → Band
unfolding uppol2 uppol1 upzero filtez filtep
predict band d =
    let r0 = saturate (band.s +ℤ d) in
    let p0 = saturate (band.sz +ℤ d) in
    let p : Three = (p0, band.p.1, band.p.2) in
    let ap2 = uppol2 band.a p in
    let ap1 = uppol1 band.a p ap2 in
    let zero_coefficients = upzero d (drop 1 band.d) (drop 1 band.b) in
    let differences = d ∷ take 6 (d ∷ drop 1 band.d) in
    let b = take 1 band.b ++ zero_coefficients in
    let r : Three = (r0, r0, band.r.1) in
    let a : Three = (band.a.0, ap1, ap2) in
    let sp = filtep a r in
    let sz = saturate (filtez (drop 1 b) (drop 1 differences)) in
    record {
      s = saturate (sp +ℤ sz);
      sp = sp;
      sz = sz;
      r = r;
      a = a;
      ap = (band.ap.0, ap1, ap2);
      p = (p0, p0, band.p.1);
      d = differences;
      b = b;
      bp = take 1 band.bp ++ zero_coefficients;
      nb = band.nb;
      det = band.det;
    }
