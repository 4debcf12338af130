-- ===== src/Codec/G722/Encoder.antt =====
-- `G722Encoder` of src/codec/g722.rs. The count that `encode` returns, the length of its input on
-- every path, is left out.
use rtp_engine.Base.{
  ℕ, zero, suc, ◌+◌, ◌*◌, ◌/◌, ◌%◌, Option, none, some, List, [], ◌∷◌, ◌++◌, drop, replicate,
  get_or, if◌then◌else◌,
}
use rtp_engine.Base.Int.{ℤ, pos, ◌+ℤ◌, ◌-ℤ◌, ◌*ℤ◌, neg_ℤ, shr, leb_ℤ}
use rtp_engine.Codec.G711.{Sample, plus, minus}
use rtp_engine.Codec.G722.Tables.{qmf, q6, iln, ilp, wl, rl42, qm4, qm2, ihn, ihp, wh, rh2}
use rtp_engine.Codec.G722.Band.{Band, scale, predict, saturate}
use rtp_engine.Codec.G722.Band

abbrev pub low_max_nb : ℤ
low_max_nb = pos 18432

abbrev pub high_max_nb : ℤ
high_max_nb = pos 22528

abbrev pub low_shift : ℤ
low_shift = pos 8

abbrev pub high_shift : ℤ
high_shift = pos 10

pub record G722Encoder : Type 0 where
  -- 24 entries
  pub x : List ℤ
  pub low : Band
  pub high : Band
  pub pending : Option Sample

abbrev pub new : G722Encoder
new = record {
  x = replicate 24 (pos 0);
  low = Band.new (pos 32);
  high = Band.new (pos 8);
  pending = none;
}

-- `i32::from(sample)`
abbrev pub to_i32 : Sample → ℤ
to_i32 (plus n) = pos n
to_i32 (minus n) = neg_ℤ (pos n)

-- The loop over the filter: the entries at even places with the coefficients, and those at odd
-- places with the coefficients from the last to the first.
unfoldable pub qmf_sums : List ℤ → List ℤ → List ℤ → ℤ × ℤ
qmf_sums (even ∷ odd ∷ x) (forth ∷ forths) (back ∷ backs) =
    let (sum_forth, sum_back) = qmf_sums x forths backs in
    (even *ℤ forth +ℤ sum_forth, odd *ℤ back +ℤ sum_back)
qmf_sums x forths backs = (pos 0, pos 0)

abbrev pub backwards : List ℤ → List ℤ
backwards [] = []
backwards (x ∷ xs) = backwards xs ++ (x ∷ [])

abbrev pub qmf_back : List ℤ
qmf_back = backwards qmf

-- `copy_within(2.., 0)` and the last two places.
abbrev pub shift_in : List ℤ → ℤ → ℤ → List ℤ
shift_in x first second = drop 2 x ++ (first ∷ second ∷ [])

-- The difference without its sign.
abbrev pub magnitude : ℤ → ℤ
magnitude x = if leb_ℤ (pos 0) x then x else neg_ℤ (x +ℤ pos 1)

-- The loop over the decision levels from number `i` on, with `rounds` = 30 - i.
unfoldable pub find_level : ℤ → ℤ → ℕ → ℕ → ℕ
find_level wd det i zero = i
find_level wd det i (suc rounds) =
    let further = find_level wd det (suc i) rounds in
    if leb_ℤ (shr (pos (get_or q6 i 0) *ℤ det) 12) wd then further else i

-- QUANTL: the 6-bit code of a difference.
unfoldable pub quantl : ℤ → ℤ → ℕ
unfolding find_level
quantl el det =
    let i = find_level (magnitude el) det 1 29 in
    if leb_ℤ (pos 0) el then get_or ilp i 0 else get_or iln i 0

-- QUANTH: the 2-bit code of a difference.
unfoldable pub quanth : ℤ → ℤ → ℕ
quanth eh det =
    let mih = if leb_ℤ (shr (pos 564 *ℤ det) 12) (magnitude eh) then 2 else 1 in
    if leb_ℤ (pos 0) eh then get_or ihp mih 0 else get_or ihn mih 0

-- INVQAL, LOGSCL, SCALEL and the predictor.
unfoldable pub adapt_low : Band → ℕ → Band
unfolding scale predict
adapt_low low ilow =
    let ril = ilow / 4 in
    let dlow = shr (low.det *ℤ get_or qm4 ril (pos 0)) 15 in
    predict (scale low (get_or wl (get_or rl42 ril 0) (pos 0)) low_max_nb low_shift) dlow

-- INVQAH, LOGSCH, SCALEH and the predictor.
unfoldable pub adapt_high : Band → ℕ → Band
unfolding scale predict
adapt_high high ihigh =
    let dhigh = shr (high.det *ℤ get_or qm2 ihigh (pos 0)) 15 in
    predict (scale high (get_or wh (get_or rh2 ihigh 0) (pos 0)) high_max_nb high_shift) dhigh

unfoldable pub encode_pair : G722Encoder → Sample → Sample → ℕ × G722Encoder
encode_pair encoder first second =
    let x = shift_in encoder.x (to_i32 first) (to_i32 second) in
    let (sum_odd, sum_even) = qmf_sums x qmf qmf_back in
    let xlow = shr (sum_even +ℤ sum_odd) 14 in
    let xhigh = shr (sum_even -ℤ sum_odd) 14 in
    let ilow = quantl (saturate (xlow -ℤ encoder.low.s)) encoder.low.det in
    let ihigh = quanth (saturate (xhigh -ℤ encoder.high.s)) encoder.high.det in
    (
      (ihigh * 64 + ilow) % 256,
      record encoder {
        x = x;
        low = adapt_low encoder.low ilow;
        high = adapt_high encoder.high ihigh;
      },
    )

-- The loop over the pairs.
unfoldable pub encode_pairs : G722Encoder → List Sample → List ℕ × G722Encoder
encode_pairs encoder [] = ([], encoder)
encode_pairs encoder (first ∷ []) = ([], record encoder { pending = some first })
encode_pairs encoder (first ∷ second ∷ samples) =
    let (code, after) = encode_pair encoder first second in
    let (codes, last) = encode_pairs after samples in (code ∷ codes, last)

-- `encode` with the sample that was held back.
unfoldable pub resume : G722Encoder → Option Sample → List Sample → List ℕ × G722Encoder
resume encoder none pcm = encode_pairs encoder pcm
resume encoder (some first) pcm = encode_pairs (record encoder { pending = none }) (first ∷ pcm)

unfoldable pub encode : G722Encoder → List Sample → List ℕ × G722Encoder
encode encoder pcm = resume encoder encoder.pending pcm
