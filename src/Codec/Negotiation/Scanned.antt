-- ===== src/Codec/Negotiation/Scanned.antt =====
-- What `negotiate_codec_with_pt` of src/codec/mod.rs makes of the lines of a session description.
use rtp_engine.Base.{
  ℕ, ◌<◌, ◌≡◌, refl, ap, sym, ◌∙◌, false, Option, none, some, List, [], ◌∷◌, ◌++◌, All, All-append,
  append_assoc, ◌==◌, drop,
}
use rtp_engine.Base.Text.{
  codes, lines, is_whitespace, trim, strip_prefix, split, split_whitespace, add_word,
  parse_unsigned, to_ascii_lowercase,
}
use rtp_engine.Base.Text.Laws.{
  after_lines, Without, Solid, ended, lines-ended, trim-line, trim-Solid, first_word-Solid,
  split_once_space-Solid, Solid-Without, IsWord, IsWord-Solid, split_whitespace-word, digits,
  first_digit, other_digits, digits-Without, digits-Solid, parse_unsigned-digits,
}
use rtp_engine.Codec.Types.{CodecType, pcmu, pcma, g729, g722, opus, clock_rate}
use rtp_engine.Codec.Negotiation.{
  Scan, payload_types, add_offer, add_named, add_rtpmap, scan_trimmed, scan_lines,
}

-- The encoding name and clock rate of a codec as RFC 3551 and RFC 7587 spell them.
abbrev pub encoding : CodecType → List ℕ
encoding pcmu = codes "PCMU/8000"
encoding pcma = codes "PCMA/8000"
encoding g729 = codes "G729/8000"
encoding g722 = codes "G722/8000"
encoding opus = codes "opus/48000/2"

-- What an `m=audio` line with one payload type says: the port, the protocol and the type.
abbrev offered_by : List ℕ → List ℕ → ℕ → List ℕ
offered_by port protocol pt = port ++ (b' ' ∷ (protocol ++ (b' ' ∷ digits pt)))

abbrev pub audio_line : List ℕ → List ℕ → ℕ → List ℕ
audio_line port protocol pt = codes "m=audio " ++ offered_by port protocol pt

abbrev pub rtpmap_line : ℕ → CodecType → List ℕ
rtpmap_line pt codec = codes "a=rtpmap:" ++ (digits pt ++ (b' ' ∷ encoding codec))

-- A line that says nothing of the codecs.
abbrev pub IsOther : List ℕ → Type 0
IsOther line =
    Without b'\n' line
    × (strip_prefix (codes "m=audio ") (trim line) ≡ none)
    × (strip_prefix (codes "a=rtpmap:") (trim line) ≡ none)

pub scan_lines-others :
    (scan : Scan) (others : List (List ℕ)) (text : List ℕ)
    → All IsOther others
    → scan_lines scan (lines (after_lines others text)) ≡ scan_lines scan (lines text)
unfolding scan_lines
scan_lines-others scan [] text other = refl
scan_lines-others scan (line ∷ others) text ((without, no_audio, no_map), other) =
    let here : scan_trimmed scan (trim line) ≡ scan = simp (scan_trimmed, no_audio, no_map) in
    ap (scan_lines scan) (lines-ended line (after_lines others text) without)
    ∙ ap (λ s. scan_lines s (lines (after_lines others text))) here
    ∙ scan_lines-others scan others text other

abbrev pub nothing : Scan
nothing = record { offered = []; rtpmaps = [] }

abbrev pub offering : ℕ → Scan
offering pt = record { offered = pt ∷ []; rtpmaps = [] }

trim-audio_line :
    (port protocol : List ℕ) (pt : ℕ)
    → pt < 256
    → trim (audio_line port protocol pt) ≡ audio_line port protocol pt
unfolding is_whitespace
trim-audio_line port protocol pt byte =
    let space : List ℕ = b' ' ∷ [] in
    let e : (port ++ (b' ' ∷ (protocol ++ space))) ++ digits pt ≡ offered_by port protocol pt =
      append_assoc port (b' ' ∷ (protocol ++ space)) (digits pt)
      ∙ ap (λ rest. port ++ (b' ' ∷ rest)) (append_assoc protocol space (digits pt)) in
    let line : List ℕ → List ℕ = λ rest. codes "m=audio " ++ rest in
    ap (λ rest. trim (line rest)) (sym e)
    ∙ trim-line b'm' (codes "=audio " ++ (port ++ (b' ' ∷ (protocol ++ space)))) (first_digit pt)
        (other_digits pt) refl (digits-Solid pt byte)
    ∙ ap line e

-- The words of such a line.
split_whitespace-offered_by :
    (port protocol : List ℕ) (pt : ℕ)
    → IsWord port
    → IsWord protocol
    → pt < 256
    → split_whitespace (offered_by port protocol pt) ≡ port ∷ protocol ∷ digits pt ∷ []
unfolding split_whitespace add_word
split_whitespace-offered_by port protocol pt a b byte =
    let add : List ℕ × List (List ℕ) → List (List ℕ) = λ w. add_word w.0 w.1 in
    split_whitespace-word port (protocol ++ (b' ' ∷ digits pt)) a
    ∙ ap (λ r. port ∷ r) (split_whitespace-word protocol (digits pt) b)
    ∙ ap (λ w. port ∷ protocol ∷ add w) (first_word-Solid (digits pt) (digits-Solid pt byte))

scan_trimmed-audio_line :
    (port protocol : List ℕ) (pt : ℕ)
    → IsWord port
    → IsWord protocol
    → pt < 256
    → scan_trimmed nothing (audio_line port protocol pt) ≡ offering pt
unfolding scan_trimmed add_offer strip_prefix payload_types
scan_trimmed-audio_line port protocol pt a b byte =
    let offer : List (List ℕ) → Scan =
      λ w. record { offered = payload_types (drop 2 w); rtpmaps = [] } in
    let one : Option ℕ → Scan =
      λ r. record { offered = elim r [ none ↦ [] | some n ↦ n ∷ [] ]; rtpmaps = [] } in
    ap offer (split_whitespace-offered_by port protocol pt a b byte)
    ∙ ap one (parse_unsigned-digits pt byte)

trim-rtpmap :
    (pt c : ℕ) (word : List ℕ)
    → pt < 256
    → Solid (c ∷ word)
    → let line = codes "a=rtpmap:" ++ (digits pt ++ (b' ' ∷ (c ∷ word))) in trim line ≡ line
unfolding is_whitespace
trim-rtpmap pt c word byte solid =
    let space : List ℕ = b' ' ∷ [] in
    let e = append_assoc (digits pt) space (c ∷ word) in
    let line : List ℕ → List ℕ = λ rest. codes "a=rtpmap:" ++ rest in
    ap (λ rest. trim (line rest)) (sym e)
    ∙ trim-line b'a' (codes "=rtpmap:" ++ (digits pt ++ space)) c word refl solid
    ∙ ap line e

trim-rtpmap_line :
    (pt : ℕ) (codec : CodecType) → pt < 256 → trim (rtpmap_line pt codec) ≡ rtpmap_line pt codec
unfolding is_whitespace
trim-rtpmap_line pt pcmu byte = trim-rtpmap pt b'P' (codes "CMU/8000") byte (search)
trim-rtpmap_line pt pcma byte = trim-rtpmap pt b'P' (codes "CMA/8000") byte (search)
trim-rtpmap_line pt g729 byte = trim-rtpmap pt b'G' (codes "729/8000") byte (search)
trim-rtpmap_line pt g722 byte = trim-rtpmap pt b'G' (codes "722/8000") byte (search)
trim-rtpmap_line pt opus byte = trim-rtpmap pt b'o' (codes "pus/48000/2") byte (search)

-- The rtpmap that is found.
abbrev pub mapped : ℕ → CodecType → Scan
mapped pt codec = record {
  offered = pt ∷ [];
  rtpmaps =
      record {
        pt = pt;
        name = to_ascii_lowercase (split b'/' (encoding codec)).0;
        rate = clock_rate codec;
      }
      ∷ [];
}

add_named-encoding :
    (pt : ℕ) (codec : CodecType)
    → add_named (offering pt) pt (split b'/' (trim (encoding codec))) ≡ mapped pt codec
unfolding add_named trim split parse_unsigned clock_rate
add_named-encoding pt pcmu = refl
add_named-encoding pt pcma = refl
add_named-encoding pt g729 = refl
add_named-encoding pt g722 = refl
add_named-encoding pt opus = refl

add_rtpmap-encoding :
    (pt : ℕ) (codec : CodecType)
    → pt < 256
    → add_rtpmap (offering pt) (some (digits pt, encoding codec)) ≡ mapped pt codec
unfolding add_rtpmap
add_rtpmap-encoding pt codec byte =
    let next : Option ℕ → Scan = λ r. elim r [
      | none ↦ offering pt
      | some parsed ↦ add_named (offering pt) parsed (split b'/' (trim (encoding codec)))
    ] in
    ap (λ t. next (parse_unsigned 255 t)) (trim-Solid (digits pt) (digits-Solid pt byte))
    ∙ ap next (parse_unsigned-digits pt byte)
    ∙ add_named-encoding pt codec

scan_trimmed-rtpmap_line :
    (pt : ℕ) (codec : CodecType)
    → pt < 256
    → scan_trimmed (offering pt) (rtpmap_line pt codec) ≡ mapped pt codec
unfolding scan_trimmed strip_prefix
scan_trimmed-rtpmap_line pt codec byte =
    ap (add_rtpmap (offering pt))
      (split_once_space-Solid (digits pt) (encoding codec) (digits-Solid pt byte))
    ∙ add_rtpmap-encoding pt codec byte

Without-audio_line :
    (port protocol : List ℕ) (pt : ℕ)
    → IsWord port
    → IsWord protocol
    → pt < 256
    → Without b'\n' (audio_line port protocol pt)
Without-audio_line port protocol pt a b byte =
    let no_newline : ℕ → Type 0 = λ x. (x == b'\n') ≡ false in
    let last : All no_newline (b' ' ∷ digits pt) = (refl, digits-Without pt byte) in
    let middle =
      All-append no_newline protocol (b' ' ∷ digits pt)
        (Solid-Without protocol (IsWord-Solid protocol b)) last in
    let text =
      All-append no_newline port (b' ' ∷ (protocol ++ (b' ' ∷ digits pt)))
        (Solid-Without port (IsWord-Solid port a)) (refl, middle) in
    search (text)

pub scan_lines-audio_line :
    (port protocol : List ℕ) (pt : ℕ) (text : List ℕ)
    → IsWord port
    → IsWord protocol
    → pt < 256
    → scan_lines nothing (lines (ended (audio_line port protocol pt) text))
      ≡ scan_lines (offering pt) (lines text)
unfolding scan_lines
scan_lines-audio_line port protocol pt text a b byte =
    let line = audio_line port protocol pt in
    ap (scan_lines nothing) (lines-ended line text (Without-audio_line port protocol pt a b byte))
    ∙ ap (λ l. scan_lines (scan_trimmed nothing l) (lines text))
        (trim-audio_line port protocol pt byte)
    ∙ ap (λ s. scan_lines s (lines text)) (scan_trimmed-audio_line port protocol pt a b byte)

Without-encoding : (codec : CodecType) → Without b'\n' (encoding codec)
Without-encoding pcmu = search
Without-encoding pcma = search
Without-encoding g729 = search
Without-encoding g722 = search
Without-encoding opus = search

Without-rtpmap_line : (pt : ℕ) (codec : CodecType) → pt < 256 → Without b'\n' (rtpmap_line pt codec)
Without-rtpmap_line pt codec byte =
    let number = digits-Without pt byte in
    let text =
      All-append (λ x. (x == b'\n') ≡ false) (digits pt) (b' ' ∷ encoding codec) number
        (refl, Without-encoding codec) in
    search (text)

pub scan_lines-rtpmap_line :
    (pt : ℕ) (codec : CodecType) (text : List ℕ)
    → pt < 256
    → scan_lines (offering pt) (lines (ended (rtpmap_line pt codec) text))
      ≡ scan_lines (mapped pt codec) (lines text)
unfolding scan_lines
scan_lines-rtpmap_line pt codec text byte =
    let line = rtpmap_line pt codec in
    ap (scan_lines (offering pt)) (lines-ended line text (Without-rtpmap_line pt codec byte))
    ∙ ap (λ l. scan_lines (scan_trimmed (offering pt) l) (lines text))
        (trim-rtpmap_line pt codec byte)
    ∙ ap (λ s. scan_lines s (lines text)) (scan_trimmed-rtpmap_line pt codec byte)
