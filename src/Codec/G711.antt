-- ===== src/Codec/G711.antt =====
-- G.711 (src/codec/g711.rs). A linear sample is a sign and a magnitude: an `i16` below zero with its
-- magnitude (1 to 32768), or one from zero on (0 to 32767).
pub mod Laws
mod Tests
use Prim.Native.Nat.{bit_xor}
use rtp_engine.Base.{
  ℕ, zero, suc, ◌+◌, ◌-◌, ◌*◌, ◌/◌, ◌%◌, ◌^◌, ◌≤◌, ◌<◌, min, Bool, true, false, List, [], ◌∷◌, map,
  ltb, leb, ◌==◌, if◌then◌else◌, get_or,
}

pub data Sample : Type 0 where
  plus : (magnitude : ℕ) → Sample
  minus : (magnitude : ℕ) → Sample

-- A sample is an `i16`.
abbrev pub IsI16 : Sample → Type 0
IsI16 (plus n) = n ≤ 32767
IsI16 (minus n) = (0 < n) × (n ≤ 32768)

-- A magnitude with a sign, zero without one.
unfoldable pub negate : ℕ → Sample
negate n = if n == 0 then plus 0 else minus n

abbrev pub ulaw_bias : ℕ
ulaw_bias = 0x84

-- The exponent: from `exponent` down, the place of the highest bit of `pcm` that is set, by the mask
-- `2 ^ (exponent + 7)`.
unfoldable pub find_exponent : ℕ → ℕ → ℕ
find_exponent pcm zero = zero
find_exponent pcm (suc exponent) =
    let lower = find_exponent pcm exponent in
    if pcm / 2 ^ (exponent + 8) % 2 == 0 then lower else suc exponent

-- `linear_to_ulaw` of a magnitude, with the sign bit.
unfoldable pub ulaw_byte : ℕ → ℕ → ℕ
unfolding find_exponent
ulaw_byte sign magnitude =
    let pcm = min 32767 (min 32767 magnitude + ulaw_bias) in
    let exponent = find_exponent pcm 7 in
    let mantissa = pcm / 2 ^ (exponent + 3) % 16 in 255 - (sign + exponent * 16 + mantissa)

unfoldable pub linear_to_ulaw : Sample → ℕ
unfolding ulaw_byte
linear_to_ulaw (plus magnitude) = ulaw_byte 0 magnitude
linear_to_ulaw (minus magnitude) = ulaw_byte 0x80 magnitude

unfoldable pub ulaw_to_linear : ℕ → Sample
unfolding negate
ulaw_to_linear code =
    let ulaw = 255 - code in
    let exponent = ulaw / 16 % 8 in
    let mantissa = ulaw % 16 in
    let sample = (mantissa * 8 + ulaw_bias) * 2 ^ exponent - ulaw_bias in
    if leb 128 ulaw then negate sample else plus sample

abbrev pub alaw_seg_end : List ℕ
alaw_seg_end = 0x1F ∷ 0x3F ∷ 0x7F ∷ 0xFF ∷ 0x1FF ∷ 0x3FF ∷ 0x7FF ∷ 0xFFF ∷ []

-- The segment: the first whose end is not below the sample, 8 when there is none.
unfoldable pub find_segment : ℕ → List ℕ → ℕ
find_segment sample [] = 0
find_segment sample (seg_end ∷ further) =
    let beyond = find_segment sample further in if ltb seg_end sample then suc beyond else 0

-- `linear_to_alaw` of a magnitude, with the mask for its sign.
unfoldable pub alaw_byte : ℕ → ℕ → ℕ
unfolding find_segment
alaw_byte sign magnitude =
    let sample = min 32767 magnitude / 8 in
    let seg = find_segment sample alaw_seg_end in
    let aval =
      if leb 8 seg
      then 0x7F
      else if ltb seg 2
      then sample / 2 % 256
      else seg * 16 + sample / 2 ^ seg % 16 in
    bit_xor aval sign

unfoldable pub linear_to_alaw : Sample → ℕ
unfolding alaw_byte
linear_to_alaw (plus magnitude) = alaw_byte 0xD5 magnitude
linear_to_alaw (minus magnitude) = alaw_byte 0x55 magnitude

unfoldable pub alaw_to_linear : ℕ → Sample
unfolding negate
alaw_to_linear code =
    let alaw = bit_xor code 0x55 in
    let seg = alaw / 16 % 8 in
    let value = alaw % 16 * 2 + 1 in
    let sample = if seg == 0 then value * 8 else (value + 0x20) * 2 ^ (seg + 2) in
    if leb 128 alaw then plus sample else negate sample

-- `PcmuEncoder::encode`: what is appended to the output, one byte for each sample.
unfoldable pub encode_pcmu : List Sample → List ℕ
unfolding linear_to_ulaw
encode_pcmu pcm = map linear_to_ulaw pcm

unfoldable pub decode_pcmu : List ℕ → List Sample
unfolding ulaw_to_linear
decode_pcmu encoded = map ulaw_to_linear encoded

unfoldable pub encode_pcma : List Sample → List ℕ
unfolding linear_to_alaw
encode_pcma pcm = map linear_to_alaw pcm

unfoldable pub decode_pcma : List ℕ → List Sample
unfolding alaw_to_linear
decode_pcma encoded = map alaw_to_linear encoded
