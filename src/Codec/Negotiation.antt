-- ===== src/Codec/Negotiation.antt =====
-- `from_name`, `negotiate_codec` and `negotiate_codec_with_pt` of src/codec/mod.rs, over code points.
-- What Unicode makes of a character outside ASCII in capitals is a parameter.
pub mod Scanned
pub mod Answer
mod Tests
use rtp_engine.Base.{
  ℕ, Bool, ◌||◌, Option, none, some, List, [], ◌∷◌, ◌++◌, drop, ◌==◌, if◌then◌else◌,
}
use rtp_engine.Base.Text.{
  codes, lines, trim, strip_prefix, split, split_once_space, split_whitespace, parse_unsigned,
  same_text, to_ascii_lowercase, to_uppercase,
}
use rtp_engine.Codec.Types.{CodecType, pcmu, pcma, g729, g722, opus, clock_rate, from_payload_type}

-- The payload type, the name and the clock rate of an `a=rtpmap`.
pub record RtpMap : Type 0 where
  pub pt : ℕ
  pub name : List ℕ
  pub rate : ℕ

-- `offered` and `rtpmaps` after some lines.
pub record Scan : Type 0 where
  pub offered : List ℕ
  pub rtpmaps : List RtpMap

-- The match on the name in capitals.
unfoldable pub from_capitals : List ℕ → Option CodecType
from_capitals name =
    if same_text name (codes "PCMU") || same_text name (codes "G711U")
    then some pcmu
    else if same_text name (codes "PCMA") || same_text name (codes "G711A")
    then some pcma
    else if same_text name (codes "G729")
        || (same_text name (codes "G.729")
            || (same_text name (codes "G729A")
                || (same_text name (codes "G.729A")
                    || (same_text name (codes "G729B") || same_text name (codes "G.729B")))))
    then some g729
    else if same_text name (codes "G722") || same_text name (codes "G.722")
    then some g722
    else if same_text name (codes "OPUS")
    then some opus
    else none

-- The payload types that parse as `u8`.
unfoldable pub payload_types : List (List ℕ) → List ℕ
payload_types [] = []
payload_types (word ∷ words) =
    let others = payload_types words in
    elim (parse_unsigned 255 word) [ none ↦ others | some pt ↦ pt ∷ others ]

-- An `m=audio` line: only the first one that offers something counts.
unfoldable pub add_offer : Scan → List ℕ → Scan
unfolding payload_types
add_offer scan rest = elim scan.offered [
  | [] ↦ record scan { offered = payload_types (drop 2 (split_whitespace rest)) }
  | pt ∷ others ↦ scan
]

-- The name and the rate of a payload type; without a rate the line is ignored.
unfoldable pub add_named : Scan → ℕ → List ℕ × List (List ℕ) → Scan
add_named scan pt (name, []) = scan
add_named scan pt (name, rate ∷ others) = elim (parse_unsigned 4294967295 rate) [
  | none ↦ scan
  | some parsed ↦ record scan {
    rtpmaps =
        scan.rtpmaps ++ (record { pt = pt; name = to_ascii_lowercase name; rate = parsed } ∷ []);
  }
]

unfoldable pub add_rtpmap : Scan → Option (List ℕ × List ℕ) → Scan
unfolding add_named
add_rtpmap scan none = scan
add_rtpmap scan (some (pt, codec)) = elim (parse_unsigned 255 (trim pt)) [
  | none ↦ scan
  | some parsed ↦ add_named scan parsed (split b'/' (trim codec))
]

unfoldable pub scan_trimmed : Scan → List ℕ → Scan
unfolding add_offer add_rtpmap
scan_trimmed scan line = elim (strip_prefix (codes "m=audio ") line) [
  | some rest ↦ add_offer scan rest
  | none ↦ elim (strip_prefix (codes "a=rtpmap:") line) [
    | none ↦ scan
    | some rest ↦ add_rtpmap scan (split_once_space rest)
  ]
]

unfoldable pub scan_lines : Scan → List (List ℕ) → Scan
unfolding scan_trimmed
scan_lines scan [] = scan
scan_lines scan (line ∷ others) = scan_lines (scan_trimmed scan (trim line)) others

-- `rtpmaps.iter().find(..)`
unfoldable pub find_rtpmap : ℕ → List RtpMap → Option RtpMap
find_rtpmap pt [] = none
find_rtpmap pt (rtpmap ∷ others) =
    let later = find_rtpmap pt others in if rtpmap.pt == pt then some rtpmap else later

-- `filter` on the clock rate.
unfoldable pub with_rate : ℕ → Option CodecType → Option CodecType
with_rate rate none = none
with_rate rate (some codec) = if clock_rate codec == rate then some codec else none

module _ (beyond_ascii : ℕ → List ℕ) where
  unfoldable pub from_name : List ℕ → Option CodecType
  unfolding from_capitals
  from_name name = from_capitals (to_uppercase beyond_ascii name)

  -- The codec that an offered payload type stands for.
  unfoldable pub codec_at : List RtpMap → ℕ → Option CodecType
  unfolding from_name with_rate
  codec_at rtpmaps pt = elim (find_rtpmap pt rtpmaps) [
    | some rtpmap ↦ with_rate rtpmap.rate (from_name rtpmap.name)
    | none ↦ from_payload_type pt
  ]

  unfoldable pub first_known : List ℕ → List RtpMap → Option (CodecType × ℕ)
  unfolding codec_at
  first_known [] rtpmaps = none
  first_known (pt ∷ others) rtpmaps = elim (codec_at rtpmaps pt) [
    | some codec ↦ some (codec, pt)
    | none ↦ first_known others rtpmaps
  ]

  unfoldable pub negotiate_codec_with_pt : List ℕ → Option (CodecType × ℕ)
  unfolding scan_lines first_known
  negotiate_codec_with_pt sdp =
      let scan = scan_lines (record { offered = []; rtpmaps = [] }) (lines sdp) in
      first_known scan.offered scan.rtpmaps

  unfoldable pub negotiate_codec : List ℕ → CodecType
  unfolding negotiate_codec_with_pt
  negotiate_codec sdp = elim (negotiate_codec_with_pt sdp) [ none ↦ pcmu | some found ↦ found.0 ]
