-- ===== src/Base/Text.antt =====
-- Text as a list of code points, with what the program uses of `str`.
pub mod Laws
use Prim.Native.Char.{code}
use Prim.Native.String.{String}
use Prim.Native.Nat.{ℕ, zero, suc, ◌+◌, ◌-◌, ◌*◌}
use mathlib.Core.Bool.{Bool, true, false, not, ◌&&◌, ◌||◌}
use mathlib.Core.Option.{Option, none, some}
use mathlib.Core.List.{List, [], ◌∷◌, ◌++◌}
use rtp_engine.Base.Tests.{◌==◌, leb, ltb, if◌then◌else◌}

abbrev pub codes : String → List ℕ
codes String.[] = []
codes (String.◌∷◌ c s) = code c ∷ codes s

-- `char::is_whitespace`: the White_Space of Unicode.
unfoldable pub is_whitespace : ℕ → Bool
is_whitespace c =
    leb 9 c && leb c 13
    || (c == 32
        || (c == 0x85
            || (c == 0xA0
                || (c == 0x1680
                    || (leb 0x2000 c && leb c 0x200A
                        || (c == 0x2028
                            || (c == 0x2029 || (c == 0x202F || (c == 0x205F || c == 0x3000)))))))))

abbrev pub is_digit : ℕ → Bool
is_digit c = leb b'0' c && leb c b'9'

abbrev pub is_lower : ℕ → Bool
is_lower c = leb b'a' c && leb c b'z'

abbrev pub is_upper : ℕ → Bool
is_upper c = leb b'A' c && leb c b'Z'

abbrev pub lower : ℕ → ℕ
lower c = if is_upper c then c + 32 else c

unfoldable pub to_ascii_lowercase : List ℕ → List ℕ
to_ascii_lowercase [] = []
to_ascii_lowercase (c ∷ text) = lower c ∷ to_ascii_lowercase text

-- `to_uppercase`, with what Unicode makes of a character outside ASCII.
unfoldable pub to_uppercase : (ℕ → List ℕ) → List ℕ → List ℕ
to_uppercase beyond_ascii [] = []
to_uppercase beyond_ascii (c ∷ text) =
    let rest = to_uppercase beyond_ascii text in
    (if ltb c 128 then (if is_lower c then c - 32 else c) ∷ [] else beyond_ascii c) ++ rest

unfoldable pub same_text : List ℕ → List ℕ → Bool
same_text [] [] = true
same_text [] (y ∷ ys) = false
same_text (x ∷ xs) [] = false
same_text (x ∷ xs) (y ∷ ys) = x == y && same_text xs ys

unfoldable pub strip_prefix : List ℕ → List ℕ → Option (List ℕ)
strip_prefix [] text = some text
strip_prefix (p ∷ prefix) [] = none
strip_prefix (p ∷ prefix) (c ∷ text) =
    let rest = strip_prefix prefix text in if p == c then rest else none

unfoldable pub trim_start : List ℕ → List ℕ
unfolding is_whitespace
trim_start [] = []
trim_start (c ∷ text) = let rest = trim_start text in if is_whitespace c then rest else c ∷ text

-- A character before a text whose end is trimmed.
unfoldable pub keep : ℕ → List ℕ → List ℕ
unfolding is_whitespace
keep c [] = if is_whitespace c then [] else c ∷ []
keep c (d ∷ text) = c ∷ d ∷ text

unfoldable pub trim_end : List ℕ → List ℕ
unfolding keep
trim_end [] = []
trim_end (c ∷ text) = keep c (trim_end text)

unfoldable pub trim : List ℕ → List ℕ
unfolding trim_start trim_end
trim text = trim_end (trim_start text)

-- `split(c)`: the first piece and the others.
unfoldable pub split : ℕ → List ℕ → List ℕ × List (List ℕ)
split c [] = ([], [])
split c (x ∷ text) =
    let (piece, others) = split c text in
    if x == c then ([], piece ∷ others) else (x ∷ piece, others)

unfoldable pub split_once : ℕ → List ℕ → Option (List ℕ × List ℕ)
split_once c [] = none
split_once c (x ∷ text) =
    if x == c
    then some ([], text)
    else elim (split_once c text) [ none ↦ none | some halves ↦ some (x ∷ halves.0, halves.1) ]

-- `split_once(char::is_whitespace)`
unfoldable pub split_once_space : List ℕ → Option (List ℕ × List ℕ)
unfolding is_whitespace
split_once_space [] = none
split_once_space (x ∷ text) =
    if is_whitespace x
    then some ([], text)
    else elim (split_once_space text) [ none ↦ none | some halves ↦ some (x ∷ halves.0, halves.1) ]

unfoldable pub splitn : ℕ → ℕ → List ℕ → List (List ℕ)
unfolding split_once
splitn zero c text = []
splitn (suc zero) c text = text ∷ []
splitn (suc (suc n)) c text = elim (split_once c text) [
  | none ↦ text ∷ []
  | some halves ↦ halves.0 ∷ splitn (suc n) c halves.1
]

-- `\r` at the end is stripped.
unfoldable pub strip_return : List ℕ → List ℕ
strip_return [] = []
strip_return (c ∷ []) = if c == b'\r' then [] else c ∷ []
strip_return (c ∷ d ∷ text) = c ∷ strip_return (d ∷ text)

-- The lines of a piece before the first newline and of those after it.
unfoldable pub lines_of : List ℕ → List (List ℕ) → List (List ℕ)
unfolding strip_return
lines_of [] [] = []
lines_of (c ∷ piece) [] = (c ∷ piece) ∷ []
lines_of piece (next ∷ others) = strip_return piece ∷ lines_of next others

unfoldable pub lines : List ℕ → List (List ℕ)
unfolding split lines_of
lines text = let (piece, others) = split b'\n' text in lines_of piece others

unfoldable pub add_word : List ℕ → List (List ℕ) → List (List ℕ)
add_word [] others = others
add_word (c ∷ word) others = (c ∷ word) ∷ others

-- The word that a text starts with, empty where it starts with white space, and the words after it.
unfoldable pub first_word : List ℕ → List ℕ × List (List ℕ)
unfolding is_whitespace add_word
first_word [] = ([], [])
first_word (c ∷ text) =
    let (word, others) = first_word text in
    if is_whitespace c then ([], add_word word others) else (c ∷ word, others)

unfoldable pub split_whitespace : List ℕ → List (List ℕ)
unfolding first_word add_word
split_whitespace text = let (word, others) = first_word text in add_word word others

-- `parse` of an unsigned integer, after the sign: `none` on overflow.
unfoldable pub parse_digits : ℕ → ℕ → List ℕ → Option ℕ
parse_digits largest value [] = some value
parse_digits largest value (c ∷ text) =
    let next = value * 10 + (c - b'0') in
    let rest = parse_digits largest next text in
    if is_digit c && leb next largest then rest else none

unfoldable pub parse_unsigned : ℕ → List ℕ → Option ℕ
unfolding parse_digits
parse_unsigned largest [] = none
parse_unsigned largest (c ∷ []) = parse_digits largest 0 (c ∷ [])
parse_unsigned largest (c ∷ d ∷ text) =
    if c == b'+' then parse_digits largest 0 (d ∷ text) else parse_digits largest 0 (c ∷ d ∷ text)
