-- ===== src/Rtp/Header/Reverse.antt =====
-- What RtpHeader::parse of src/rtp/header.rs accepts: a valid header, and exactly the bytes that
-- `to_bytes` would write for it.
use rtp_engine.Base.{
  ℕ, zero, suc, ◌+◌, ◌*◌, ◌/◌, ◌%◌, ◌≤◌, ◌≡◌, refl, sym, ap, ap₂, ◌∙◌, true, false, Option, inl,
  inr, ◌⊎◌, Bool-cases, none, some, List, ◌∷◌, ◌++◌, append_assoc, arith, length, length-slice,
  get_or-slice, slice-append-drop, subst, All, slice, drop, IsU32, IsBytes, byte_at, bit, u16_at,
  u32_at, drop-byte, drop-u16, drop-u32, byte_at-lt, u32_at-lt, u16_to_be, u32_to_be,
}
use rtp_engine.Rtp.Header.{
  RtpHeader, read_csrc, fixed_part, read_extension, parse, csrc_bytes, extension_bytes, byte0,
  byte1, to_bytes, header_length,
}
use rtp_engine.Rtp.Header.RoundTrip.{IsValid, ExtensionFits}

length-read_csrc : (bytes : List ℕ) (n i : ℕ) → length (read_csrc bytes n i) ≡ n
unfolding read_csrc
length-read_csrc bytes zero i = refl
length-read_csrc bytes (suc n) i = ap suc (length-read_csrc bytes n (i + 1))

read_csrc-IsU32 : (bytes : List ℕ) (n i : ℕ) → IsBytes bytes → All IsU32 (read_csrc bytes n i)
unfolding read_csrc
read_csrc-IsU32 bytes zero i h = tt
read_csrc-IsU32 bytes (suc n) i h =
    (u32_at-lt bytes (12 + i * 4) h, read_csrc-IsU32 bytes n (i + 1) h)

csrc_bytes-read_csrc :
    (bytes : List ℕ) (n i a b : ℕ)
    → a ≡ 12 + i * 4
    → b ≡ a + n * 4
    → IsBytes bytes
    → b ≤ length bytes
    → drop a bytes ≡ csrc_bytes (read_csrc bytes n i) ++ drop b bytes
unfolding read_csrc csrc_bytes
csrc_bytes-read_csrc bytes zero i a b e f h l = ap (λ k. drop k bytes) (omega arith)
csrc_bytes-read_csrc bytes (suc n) i a b e f h l = rw (← e) (
    drop-u32 bytes a (a + 4) refl h (omega arith)
    ∙ ap (λ r. u32_to_be (u32_at bytes a) ++ r)
        (csrc_bytes-read_csrc bytes n (i + 1) (a + 4) b (omega arith) (omega arith) h l))

-- The first twelve bytes are those of the header that they spell.
byte0-fixed_part :
    (bytes : List ℕ)
    → IsBytes bytes
    → byte_at bytes 0 / 64 % 4 ≡ 2
    → byte0 (fixed_part bytes) ≡ byte_at bytes 0
unfolding byte0 fixed_part
byte0-fixed_part bytes h e =
    ground (arith, byte_at-lt bytes 0 h, length-read_csrc bytes (byte_at bytes 0 % 16) 0)

byte1-fixed_part : (bytes : List ℕ) → IsBytes bytes → byte1 (fixed_part bytes) ≡ byte_at bytes 1
unfolding byte1 fixed_part
byte1-fixed_part bytes h = ground (arith, byte_at-lt bytes 1 h)

twelve_bytes :
    (bytes : List ℕ)
    → IsBytes bytes
    → 12 ≤ length bytes
    → bytes
      ≡ byte_at bytes 0
        ∷ byte_at bytes 1
        ∷ (u16_to_be (u16_at bytes 2)
            ++ (u32_to_be (u32_at bytes 4) ++ (u32_to_be (u32_at bytes 8) ++ drop 12 bytes)))
twelve_bytes bytes h l =
    drop-byte bytes 0 1 refl (omega arith)
    ∙ ap (λ r. byte_at bytes 0 ∷ r) (drop-byte bytes 1 2 refl (omega arith))
    ∙ ap (λ r. byte_at bytes 0 ∷ byte_at bytes 1 ∷ r) words
  where
    words :
        drop 2 bytes
        ≡ u16_to_be (u16_at bytes 2)
          ++ (u32_to_be (u32_at bytes 4) ++ (u32_to_be (u32_at bytes 8) ++ drop 12 bytes))
    words =
        drop-u16 bytes 2 4 refl h (omega arith)
        ∙ ap (λ r. u16_to_be (u16_at bytes 2) ++ r) (drop-u32 bytes 4 8 refl h (omega arith))
        ∙ ap (λ r. u16_to_be (u16_at bytes 2) ++ (u32_to_be (u32_at bytes 4) ++ r))
            (drop-u32 bytes 8 12 refl h l)

abbrev csrc_end_of : List ℕ → ℕ
csrc_end_of bytes = 12 + byte_at bytes 0 % 16 * 4

abbrev ext_end_of : List ℕ → ℕ
ext_end_of bytes = csrc_end_of bytes + 4 + u16_at bytes (csrc_end_of bytes + 2) * 4

-- The two ways in which `parse` succeeds.
record Plain (bytes : List ℕ) (h : RtpHeader) : Type 0 where
  flag : bit (byte_at bytes 0) 4 ≡ false
  fits : csrc_end_of bytes ≤ length bytes
  result : h ≡ fixed_part bytes

record Extended (bytes : List ℕ) (h : RtpHeader) : Type 0 where
  flag : bit (byte_at bytes 0) 4 ≡ true
  fits : ext_end_of bytes ≤ length bytes
  result : h ≡ record (fixed_part bytes) {
    extension_data = some (slice (csrc_end_of bytes) (ext_end_of bytes) bytes);
  }

parse_start :
    (bytes : List ℕ) (h : RtpHeader)
    → parse bytes ≡ some h
    → (12 ≤ length bytes) × (byte_at bytes 0 / 64 % 4 ≡ 2)
unfolding parse
parse_start bytes h e = ground arith

parse_cases :
    (bytes : List ℕ) (h : RtpHeader) → parse bytes ≡ some h → Plain bytes h ⊎ Extended bytes h
unfolding parse read_extension
parse_cases bytes h e = elim (Bool-cases (bit (byte_at bytes 0) 4)) [
  | inl t ↦ inr (ground arith)
  | inr f ↦ inl (ground arith)
]

fixed_part-IsValid :
    (bytes : List ℕ) (o : Option (List ℕ))
    → IsBytes bytes
    → byte_at bytes 0 / 64 % 4 ≡ 2
    → ExtensionFits (bit (byte_at bytes 0) 4) o
    → IsValid (record (fixed_part bytes) { extension_data = o })
unfolding fixed_part
fixed_part-IsValid bytes o h e f = record {
  version_two = e;
  count = sym (length-read_csrc bytes (byte_at bytes 0 % 16) 0);
  few = omega (arith, length-read_csrc bytes (byte_at bytes 0 % 16) 0);
  type_fits = omega arith;
  sequence_fits = omega (arith, byte_at-lt bytes 2 h, byte_at-lt bytes 3 h);
  timestamp_fits = u32_at-lt bytes 4 h;
  ssrc_fits = u32_at-lt bytes 8 h;
  csrc_fit = read_csrc-IsU32 bytes (byte_at bytes 0 % 16) 0 h;
  extension_fits = f;
}

-- The extension that `parse` cuts out has the length that its own length field gives.
slice-fits :
    (bytes : List ℕ)
    → ext_end_of bytes ≤ length bytes
    → let ext = slice (csrc_end_of bytes) (ext_end_of bytes) bytes in
      (4 ≤ length ext) × (length ext ≡ 4 + u16_at ext 2 * 4)
slice-fits bytes h =
    let a : ℕ = csrc_end_of bytes in
    let b : ℕ = ext_end_of bytes in
    omega (
      arith,
      length-slice a b bytes h,
      get_or-slice a b bytes 2 (a + 2) 0 refl (omega arith),
      get_or-slice a b bytes 3 (a + 2 + 1) 0 (omega arith) (omega arith),
    )

-- `parse` accepts only valid headers.
pub parse-IsValid :
    (bytes : List ℕ) (h : RtpHeader) → IsBytes bytes → parse bytes ≡ some h → IsValid h
unfolding fixed_part
parse-IsValid bytes h b e = elim (parse_cases bytes h e) [
  | inl p ↦
      subst IsValid (sym p.result)
        (fixed_part-IsValid bytes none b (parse_start bytes h e).1 p.flag)
  | inr p ↦ subst IsValid (sym p.result) (
      fixed_part-IsValid bytes _ b (parse_start bytes h e).1
        (let f = slice-fits bytes p.fits in (p.flag, f.0, f.1)))
]

-- The bytes of the header that `parse` has built, with any extension behind the CSRC list.
to_bytes-fixed_part :
    (bytes : List ℕ) (o : Option (List ℕ)) (n : ℕ)
    → IsBytes bytes
    → 12 ≤ length bytes
    → byte_at bytes 0 / 64 % 4 ≡ 2
    → csrc_end_of bytes ≤ length bytes
    → drop (csrc_end_of bytes) bytes ≡ extension_bytes o ++ drop n bytes
    → bytes ≡ to_bytes (record (fixed_part bytes) { extension_data = o }) ++ drop n bytes
unfolding to_bytes fixed_part
to_bytes-fixed_part bytes o n b l e f t =
    twelve_bytes bytes b l
    ∙ ap₂ (λ x y. x ∷ y ∷ (words ++ drop 12 bytes)) (sym (byte0-fixed_part bytes b e))
        (sym (byte1-fixed_part bytes b))
    ∙ ap (λ r. byte0 (fixed_part bytes) ∷ byte1 (fixed_part bytes) ∷ (words ++ r)) behind
  where
    words : List ℕ
    words = u16_to_be (u16_at bytes 2) ++ (u32_to_be (u32_at bytes 4) ++ u32_to_be (u32_at bytes 8))

    cs : List ℕ
    cs = csrc_bytes (read_csrc bytes (byte_at bytes 0 % 16) 0)

    behind : drop 12 bytes ≡ (cs ++ extension_bytes o) ++ drop n bytes
    behind =
        csrc_bytes-read_csrc bytes (byte_at bytes 0 % 16) 0 12 (csrc_end_of bytes) refl refl b f
        ∙ ap (λ r. cs ++ r) t
        ∙ sym (append_assoc cs (extension_bytes o) (drop n bytes))

header_end :
    (bytes : List ℕ) (o : Option (List ℕ)) (n : ℕ)
    → n ≡ csrc_end_of bytes + length (extension_bytes o)
    → header_length (record (fixed_part bytes) { extension_data = o }) ≡ n
unfolding header_length fixed_part
header_end bytes none n e = omega (arith, length-read_csrc bytes (byte_at bytes 0 % 16) 0)
header_end bytes (some ext) n e = omega (arith, length-read_csrc bytes (byte_at bytes 0 % 16) 0)

-- What the bytes are, for a header of either shape that ends at `n`.
split_at :
    (bytes : List ℕ) (h : RtpHeader) (o : Option (List ℕ)) (n : ℕ)
    → IsBytes bytes
    → parse bytes ≡ some h
    → h ≡ record (fixed_part bytes) { extension_data = o }
    → n ≡ csrc_end_of bytes + length (extension_bytes o)
    → n ≤ length bytes
    → drop (csrc_end_of bytes) bytes ≡ extension_bytes o ++ drop n bytes
    → (bytes ≡ to_bytes h ++ drop (header_length h) bytes) × (header_length h ≤ length bytes)
split_at bytes h o n b e r m l t =
    let s = parse_start bytes h e in
    subst
      (λ x. (bytes ≡ to_bytes x ++ drop (header_length x) bytes) × (header_length x ≤ length bytes))
      (sym r)
      (rw (header_end bytes o n m) (to_bytes-fixed_part bytes o n b s.0 s.1 (omega arith) t, l))

-- A slice that `parse` accepts starts with the bytes that `to_bytes` writes for its header.
pub to_bytes-parse :
    (bytes : List ℕ) (h : RtpHeader)
    → IsBytes bytes
    → parse bytes ≡ some h
    → (bytes ≡ to_bytes h ++ drop (header_length h) bytes) × (header_length h ≤ length bytes)
unfolding extension_bytes fixed_part
to_bytes-parse bytes h b e = elim (parse_cases bytes h e) [
  | inl p ↦ split_at bytes h none (csrc_end_of bytes) b e p.result (omega arith) p.fits refl
  | inr p ↦
      split_at bytes h (some (slice (csrc_end_of bytes) (ext_end_of bytes) bytes))
        (ext_end_of bytes) b e p.result
        (omega (arith, length-slice (csrc_end_of bytes) (ext_end_of bytes) bytes p.fits)) p.fits
        (slice-append-drop (csrc_end_of bytes) (ext_end_of bytes) bytes (omega arith))
]
