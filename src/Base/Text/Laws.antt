-- ===== src/Base/Text/Laws.antt =====
-- The functions on text, at text with a separator in it and at text with none.
use Prim.Native.Nat.{ℕ, ◌+◌, ◌<◌, ◌/◌, ◌%◌}
use mathlib.Core.Path.{◌≡◌, refl, ap, sym, ◌∙◌}
use mathlib.Core.Bool.{false}
use mathlib.Core.Option.{some}
use mathlib.Core.List.{List, [], ◌∷◌, ◌++◌, append_assoc}
use native.Mathlib.Omega.{arith}
use rtp_engine.Base.Tests.{◌==◌, ltb, ==_self, if◌then◌else◌}
use rtp_engine.Base.Lists.{All}
use rtp_engine.Base.Text.{
  is_whitespace, first_word, add_word, split_whitespace, split_once_space, parse_digits,
  parse_unsigned, trim_start, keep, trim_end, trim, split, strip_return, lines_of, lines,
}

-- Text without a separator.
abbrev pub Without : ℕ → List ℕ → Type 0
Without c = All (λ x. (x == c) ≡ false)

abbrev pub Solid : List ℕ → Type 0
Solid = All (λ x. is_whitespace x ≡ false)

pub split-separator :
    (c : ℕ) (piece text : List ℕ)
    → Without c piece
    → split c (piece ++ (c ∷ text)) ≡ (piece, (split c text).0 ∷ (split c text).1)
unfolding split
split-separator c [] text without = simp (split, ==_self c)
split-separator c (x ∷ piece) text (other, without) =
    let rest = split-separator c piece text without in
    simp (split, other) (λ i. (x ∷ (rest i).0, (rest i).1))

pub split_whole : (c : ℕ) (piece : List ℕ) → Without c piece → split c piece ≡ (piece, [])
unfolding split
split_whole c [] without = refl
split_whole c (x ∷ piece) (other, without) =
    let rest = split_whole c piece without in
    simp (split, other) (λ i. (x ∷ (rest i).0, (rest i).1))

pub strip_return-return : (text : List ℕ) → strip_return (text ++ (b'\r' ∷ [])) ≡ text
unfolding strip_return
strip_return-return [] = refl
strip_return-return (c ∷ []) = refl
strip_return-return (c ∷ d ∷ text) = ap (c ∷◌) (strip_return-return (d ∷ text))

Without-return : (line : List ℕ) → Without b'\n' line → Without b'\n' (line ++ (b'\r' ∷ []))
Without-return [] without = (refl, tt)
Without-return (c ∷ line) (other, without) = (other, Without-return line without)

-- The text of a line and what follows it.
abbrev pub ended : List ℕ → List ℕ → List ℕ
ended line text = line ++ (b'\r' ∷ b'\n' ∷ text)

-- Lines one after the other, before a text.
abbrev pub after_lines : List (List ℕ) → List ℕ → List ℕ
after_lines [] text = text
after_lines (line ∷ others) text = ended line (after_lines others text)

pub lines-ended :
    (line text : List ℕ) → Without b'\n' line → lines (ended line text) ≡ line ∷ lines text
unfolding lines lines_of
lines-ended line text without =
    let cut = split-separator b'\n' (line ++ (b'\r' ∷ [])) text (Without-return line without) in
    let finish : List ℕ × List (List ℕ) → List (List ℕ) = λ s. lines_of s.0 s.1 in
    ap (λ t. finish (split b'\n' t)) (sym (append_assoc line (b'\r' ∷ []) (b'\n' ∷ text)))
    ∙ ap finish cut
    ∙ ap (λ l. l ∷ lines text) (strip_return-return line)

trim_end-Solid : (text : List ℕ) → Solid text → trim_end text ≡ text
unfolding trim_end keep
trim_end-Solid [] solid = refl
trim_end-Solid (c ∷ []) (other, solid) = simp (keep, other)
trim_end-Solid (c ∷ d ∷ text) (other, solid) = ap (keep c) (trim_end-Solid (d ∷ text) solid)

pub trim_end-append :
    (text : List ℕ) (c : ℕ) (word : List ℕ)
    → Solid (c ∷ word)
    → trim_end (text ++ (c ∷ word)) ≡ text ++ (c ∷ word)
unfolding trim_end keep
trim_end-append [] c word solid = trim_end-Solid (c ∷ word) solid
trim_end-append (x ∷ []) c word solid = ap (keep x) (trim_end-Solid (c ∷ word) solid)
trim_end-append (x ∷ y ∷ text) c word solid = ap (keep x) (trim_end-append (y ∷ text) c word solid)

pub trim-line :
    (x : ℕ) (text : List ℕ) (c : ℕ) (word : List ℕ)
    → is_whitespace x ≡ false
    → Solid (c ∷ word)
    → trim (x ∷ (text ++ (c ∷ word))) ≡ x ∷ (text ++ (c ∷ word))
unfolding trim trim_start
trim-line x text c word other solid =
    simp (trim_start, other) (trim_end-append (x ∷ text) c word solid)

pub trim-Solid : (text : List ℕ) → Solid text → trim text ≡ text
unfolding trim trim_start
trim-Solid [] solid = refl
trim-Solid (x ∷ text) (other, solid) =
    simp (trim_start, other) (trim_end-Solid (x ∷ text) (other, solid))

pub first_word-Solid : (text : List ℕ) → Solid text → first_word text ≡ (text, [])
unfolding first_word
first_word-Solid [] solid = refl
first_word-Solid (c ∷ text) (other, solid) =
    let rest = first_word-Solid text solid in
    simp (first_word, other) (λ i. (c ∷ (rest i).0, (rest i).1))

-- The words of a text that starts with a word and a space.
pub first_word-word :
    (word text : List ℕ)
    → Solid word
    → first_word (word ++ (b' ' ∷ text)) ≡ (word, split_whitespace text)
unfolding first_word split_whitespace is_whitespace
first_word-word [] text solid = refl
first_word-word (c ∷ word) text (other, solid) =
    let rest = first_word-word word text solid in
    simp (first_word, other) (λ i. (c ∷ (rest i).0, (rest i).1))

not_newline : (c : ℕ) → is_whitespace c ≡ false → (c == b'\n') ≡ false
unfolding is_whitespace
not_newline c other = ground arith

pub Solid-Without : (word : List ℕ) → Solid word → Without b'\n' word
Solid-Without [] solid = tt
Solid-Without (c ∷ word) (other, solid) = (not_newline c other, Solid-Without word solid)

-- A word: text with no white space, and not empty.
abbrev pub IsWord : List ℕ → Type 0
IsWord [] = ⊥
IsWord (c ∷ word) = Solid (c ∷ word)

pub split_whitespace-word :
    (word text : List ℕ)
    → IsWord word
    → split_whitespace (word ++ (b' ' ∷ text)) ≡ word ∷ split_whitespace text
unfolding split_whitespace add_word
split_whitespace-word [] text empty = absurd empty
split_whitespace-word (c ∷ word) text solid =
    ap (λ (w : List ℕ × List (List ℕ)). add_word w.0 w.1) (first_word-word (c ∷ word) text solid)

pub IsWord-Solid : (word : List ℕ) → IsWord word → Solid word
IsWord-Solid [] empty = absurd empty
IsWord-Solid (c ∷ word) solid = solid

pub split_once_space-Solid :
    (word text : List ℕ) → Solid word → split_once_space (word ++ (b' ' ∷ text)) ≡ some (word, text)
unfolding split_once_space
split_once_space-Solid [] text solid = refl
split_once_space-Solid (c ∷ word) text (other, solid) =
    simp (split_once_space, other, split_once_space-Solid word text solid)

-- A byte in decimal.
unfoldable pub first_digit : ℕ → ℕ
first_digit n = if ltb n 10 then n + b'0' else if ltb n 100 then n / 10 + b'0' else n / 100 + b'0'

unfoldable pub other_digits : ℕ → List ℕ
other_digits n =
    if ltb n 10
    then []
    else if ltb n 100
    then (n % 10 + b'0') ∷ []
    else (n / 10 % 10 + b'0') ∷ (n % 10 + b'0') ∷ []

abbrev pub digits : ℕ → List ℕ
digits n = first_digit n ∷ other_digits n

pub parse_unsigned-digits : (n : ℕ) → n < 256 → parse_unsigned 255 (digits n) ≡ some n
unfolding parse_unsigned parse_digits first_digit other_digits
parse_unsigned-digits n byte = ground (arith, byte)

pub digits-Solid : (n : ℕ) → n < 256 → Solid (digits n)
unfolding is_whitespace first_digit other_digits
digits-Solid n byte = ground (arith, byte)

pub digits-Without : (n : ℕ) → n < 256 → Without b'\n' (digits n)
unfolding first_digit other_digits
digits-Without n byte = ground (arith, byte)
