-- ===== src/Codec/G722/Decoder.antt =====
-- `G722Decoder` of src/codec/g722.rs.
use rtp_engine.Base.{ℕ, suc, ◌/◌, ◌%◌, List, [], ◌∷◌, replicate, get_or}
use rtp_engine.Base.Int.{ℤ, pos, negsuc, ◌+ℤ◌, ◌-ℤ◌, ◌*ℤ◌, shr, clamp_ℤ}
use rtp_engine.Codec.G711.{Sample, plus, minus}
use rtp_engine.Codec.G722.Tables.{qmf, qm6, qm2}
use rtp_engine.Codec.G722.Band.{Band, saturate}
use rtp_engine.Codec.G722.Band
use rtp_engine.Codec.G722.Encoder.{qmf_sums, qmf_back, shift_in, adapt_low, adapt_high}

pub record G722Decoder : Type 0 where
  -- 24 entries
  pub x : List ℤ
  pub low : Band
  pub high : Band

abbrev pub new : G722Decoder
new = record { x = replicate 24 (pos 0); low = Band.new (pos 32); high = Band.new (pos 8) }

-- `as i16` of a number that fits.
abbrev pub to_i16 : ℤ → Sample
to_i16 (pos n) = plus n
to_i16 (negsuc n) = minus (suc n)

-- RECONS and LIMIT: what a band adds to the output.
unfoldable pub reconstruct : Band → ℤ → ℤ
reconstruct band factor = clamp_ℤ (negsuc 16383) (pos 16383) (band.s +ℤ shr (band.det *ℤ factor) 15)

-- The two samples of a byte.
unfoldable pub decode_byte : G722Decoder → ℕ → Sample × Sample × G722Decoder
decode_byte decoder code =
    let ilow = code % 64 in
    let ihigh = code / 64 % 4 in
    let rlow = reconstruct decoder.low (get_or qm6 ilow (pos 0)) in
    let rhigh = reconstruct decoder.high (get_or qm2 ihigh (pos 0)) in
    let x = shift_in decoder.x (rlow +ℤ rhigh) (rlow -ℤ rhigh) in
    let (out2, out1) = qmf_sums x qmf qmf_back in
    (
      to_i16 (saturate (shr out1 11)),
      to_i16 (saturate (shr out2 11)),
      record { x = x; low = adapt_low decoder.low ilow; high = adapt_high decoder.high ihigh },
    )

unfoldable pub decode : G722Decoder → List ℕ → List Sample × G722Decoder
decode decoder [] = ([], decoder)
decode decoder (code ∷ encoded) =
    let (first, second, after) = decode_byte decoder code in
    let (samples, last) = decode after encoded in (first ∷ second ∷ samples, last)
