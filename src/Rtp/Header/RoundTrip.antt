-- ===== src/Rtp/Header/RoundTrip.antt =====
-- RtpHeader::parse and RtpHeader::to_bytes of src/rtp/header.rs are inverse to one another.
use rtp_engine.Base.{
  ℕ, ◌+◌, ◌*◌, ◌/◌, ◌%◌, ◌≤◌, ◌<◌, ◌≡◌, refl, sym, ap, ap₂, ◌∙◌, Bool, true, false, Option,
  Option-cases, subst, inl, inr, none, some, List, [], ◌∷◌, ◌++◌, append_assoc, arith, length, All,
  u16_to_be, u32_to_be, IsU16, IsU32, bit, u16_at, length-append, u32_at-append, byte_at-append,
  get_or-append_left, slice-append, u32_from_be-to_be,
}
use rtp_engine.Rtp.Header.{
  RtpHeader, read_csrc, fixed_part, parse, csrc_bytes, extension_bytes, byte0, byte1, to_bytes,
  header_length,
}

-- The extension is there exactly when the flag is set, and its length field counts its words.
abbrev pub ExtensionFits : Bool → Option (List ℕ) → Type 0
ExtensionFits flag none = flag ≡ false
ExtensionFits flag (some ext) =
    (flag ≡ true) × (4 ≤ length ext) × (length ext ≡ 4 + u16_at ext 2 * 4)

-- A header whose fields fit their wire widths and agree with one another.
pub record IsValid (h : RtpHeader) : Type 0 where
  pub version_two : h.version ≡ 2
  pub count : h.csrc_count ≡ length h.csrc
  pub few : length h.csrc < 16
  pub type_fits : h.payload_type < 128
  pub sequence_fits : IsU16 h.sequence
  pub timestamp_fits : IsU32 h.timestamp
  pub ssrc_fits : IsU32 h.ssrc
  pub csrc_fit : All IsU32 h.csrc
  pub extension_fits : ExtensionFits h.extension h.extension_data

length-csrc_bytes : (xs : List ℕ) → length (csrc_bytes xs) ≡ length xs * 4
unfolding csrc_bytes
length-csrc_bytes [] = refl
length-csrc_bytes (x ∷ xs) = omega (arith, length-csrc_bytes xs)

read_csrc-csrc_bytes :
    (pre xs rest : List ℕ) (i : ℕ)
    → length pre ≡ 12 + i * 4
    → All IsU32 xs
    → read_csrc (pre ++ (csrc_bytes xs ++ rest)) (length xs) i ≡ xs
unfolding read_csrc csrc_bytes
read_csrc-csrc_bytes pre [] rest i e h = refl
read_csrc-csrc_bytes pre (x ∷ xs) rest i e h =
    ap₂ ◌∷◌ (u32_at-append pre _ 0 (12 + i * 4) (omega arith) ∙ u32_from_be-to_be x h.0) (
      ap (λ l. read_csrc l (length xs) (i + 1))
        (sym (append_assoc pre (u32_to_be x) (csrc_bytes xs ++ rest)))
      ∙ read_csrc-csrc_bytes (pre ++ u32_to_be x) xs rest (i + 1)
          (omega (arith, length-append pre (u32_to_be x))) h.1)

-- The first twelve bytes.
fixed_bytes : RtpHeader → List ℕ
fixed_bytes h =
    byte0 h ∷ byte1 h ∷ (u16_to_be h.sequence ++ (u32_to_be h.timestamp ++ u32_to_be h.ssrc))

to_bytes-split :
    (h : RtpHeader) (rest : List ℕ)
    → to_bytes h ++ rest
      ≡ fixed_bytes h ++ (csrc_bytes h.csrc ++ (extension_bytes h.extension_data ++ rest))
unfolding to_bytes fixed_bytes
to_bytes-split h rest =
    ap (λ l. fixed_bytes h ++ l)
      (append_assoc (csrc_bytes h.csrc) (extension_bytes h.extension_data) rest)

-- What the two packed bytes hold.
byte0_fields :
    (h : RtpHeader)
    → IsValid h
    → (byte0 h / 64 % 4 ≡ 2)
      × (bit (byte0 h) 5 ≡ h.padding)
      × (bit (byte0 h) 4 ≡ h.extension)
      × (byte0 h % 16 ≡ length h.csrc)
unfolding byte0
byte0_fields h v = ground arith

byte1_fields :
    (h : RtpHeader)
    → h.payload_type < 128
    → (bit (byte1 h) 7 ≡ h.marker) × (byte1 h % 128 ≡ h.payload_type)
unfolding byte1
byte1_fields h v = ground arith

fixed_part-fixed_bytes :
    (h : RtpHeader) (rest : List ℕ)
    → IsValid h
    → fixed_part (fixed_bytes h ++ (csrc_bytes h.csrc ++ rest)) ≡ record h { extension_data = none }
unfolding fixed_part fixed_bytes
fixed_part-fixed_bytes h rest v = ground (
  arith,
  byte0_fields h v,
  byte1_fields h v.type_fits,
  u32_from_be-to_be h.timestamp v.timestamp_fits,
  u32_from_be-to_be h.ssrc v.ssrc_fits,
  read_csrc-csrc_bytes (fixed_bytes h) h.csrc rest 0 refl v.csrc_fit,
)

-- What `parse` makes of a valid header with no extension.
parse_plain :
    (h : RtpHeader) (rest : List ℕ)
    → IsValid h
    → h.extension_data ≡ none
    → h.extension ≡ false
    → parse (fixed_bytes h ++ (csrc_bytes h.csrc ++ rest)) ≡ some h
unfolding parse fixed_bytes
parse_plain h rest v e f = ground (
  arith,
  byte0_fields h v,
  fixed_part-fixed_bytes h rest v,
  length-append (csrc_bytes h.csrc) rest,
  length-csrc_bytes h.csrc,
)

-- The length field of the extension, read out of the whole packet.
u16_at-extension :
    (pre ext rest : List ℕ) (i : ℕ)
    → i ≡ length pre + 2
    → 4 ≤ length ext
    → u16_at (pre ++ (ext ++ rest)) i ≡ u16_at ext 2
u16_at-extension pre ext rest i e h = omega (
  arith,
  byte_at-append pre (ext ++ rest) 2 i e,
  byte_at-append pre (ext ++ rest) 3 (i + 1) (omega arith),
  get_or-append_left ext rest 2 0 (omega arith),
  get_or-append_left ext rest 3 0 (omega arith),
)

parse_extended :
    (h : RtpHeader) (ext rest : List ℕ)
    → IsValid h
    → h.extension_data ≡ some ext
    → ExtensionFits h.extension (some ext)
    → parse (fixed_bytes h ++ (csrc_bytes h.csrc ++ (ext ++ rest))) ≡ some h
unfolding parse fixed_bytes
parse_extended h ext rest v e f =
    let csrc_end : ℕ = 12 + length h.csrc * 4 in
    ground (
      arith,
      byte0_fields h v,
      fixed_part-fixed_bytes h (ext ++ rest) v,
      length-append (csrc_bytes h.csrc) (ext ++ rest),
      length-append ext rest,
      length-csrc_bytes h.csrc,
      u16_at-extension (fixed_bytes h ++ csrc_bytes h.csrc) ext rest (csrc_end + 2),
      slice-append (fixed_bytes h ++ csrc_bytes h.csrc) ext rest csrc_end (csrc_end + length ext),
    )

packet_shape :
    (h : RtpHeader) (o : Option (List ℕ)) (rest : List ℕ)
    → h.extension_data ≡ o
    → to_bytes h ++ rest ≡ fixed_bytes h ++ (csrc_bytes h.csrc ++ (extension_bytes o ++ rest))
packet_shape h o rest e =
    to_bytes-split h rest
    ∙ ap (λ x. fixed_bytes h ++ (csrc_bytes h.csrc ++ (extension_bytes x ++ rest))) e

-- Parsing what `to_bytes` writes for a valid header gives the header back, whatever follows it.
pub parse-to_bytes :
    (h : RtpHeader) (rest : List ℕ) → IsValid h → parse (to_bytes h ++ rest) ≡ some h
unfolding extension_bytes
parse-to_bytes h rest v = elim (Option-cases h.extension_data) [
  | inl e ↦
      ap parse (packet_shape h none rest e)
      ∙ parse_plain h rest v e (subst (ExtensionFits h.extension) e v.extension_fits)
  | inr (ext, e) ↦
      ap parse (packet_shape h (some ext) rest e)
      ∙ parse_extended h ext rest v e (subst (ExtensionFits h.extension) e v.extension_fits)
]

-- `header_length` counts the bytes that `to_bytes` writes, for every header.
pub length-to_bytes : (h : RtpHeader) → length (to_bytes h) ≡ header_length h
unfolding to_bytes header_length
length-to_bytes h = ground (
  arith,
  length-append (csrc_bytes h.csrc) (extension_bytes h.extension_data),
  length-csrc_bytes h.csrc,
)
