-- ===== src/Base/Bytes.antt =====
-- Bytes and big-endian words: `u16::from_be_bytes`, `to_be_bytes` and the like.
use Prim.Native.Nat.{ℕ, zero, suc, ◌+◌, ◌*◌, ◌/◌, ◌%◌, ◌^◌, ◌≤◌, ◌<◌}
use mathlib.Core.Path.{◌≡◌, refl, ap, sym, ◌∙◌}
use mathlib.Core.List.{List, [], ◌∷◌, ◌++◌}
use mathlib.Core.Bool.{Bool}
use native.Mathlib.Omega.{arith}
use rtp_engine.Base.Tests.{◌==◌}
use rtp_engine.Base.Lists.{length, get_or, get_or-append, drop, All}

abbrev pub IsByte : ℕ → Type 0
IsByte b = b < 256

abbrev pub IsU16 : ℕ → Type 0
IsU16 x = x < 65536

abbrev pub IsU32 : ℕ → Type 0
IsU32 x = x < 4294967296

abbrev pub IsU64 : ℕ → Type 0
IsU64 x = x < 18446744073709551616

-- `&[u8]`
abbrev pub IsBytes : List ℕ → Type 0
IsBytes = All IsByte

-- `data[i]`, read by the code only below `data.len()`.
abbrev pub byte_at : List ℕ → ℕ → ℕ
byte_at xs i = get_or xs i 0

-- bit `k` of a byte, for a numeral `k`: `x & (1 << k) != 0`
abbrev pub bit : ℕ → ℕ → Bool
bit x k = x / 2 ^ k % 2 == 1

abbrev pub u16_from_be : ℕ → ℕ → ℕ
u16_from_be a b = a * 256 + b

abbrev pub u32_from_be : ℕ → ℕ → ℕ → ℕ → ℕ
u32_from_be a b c d = a * 16777216 + b * 65536 + c * 256 + d

-- `u16::from_be_bytes([data[i], data[i + 1]])`
abbrev pub u16_at : List ℕ → ℕ → ℕ
u16_at xs i = u16_from_be (byte_at xs i) (byte_at xs (i + 1))

abbrev pub u32_at : List ℕ → ℕ → ℕ
u32_at xs i =
    u32_from_be (byte_at xs i) (byte_at xs (i + 1)) (byte_at xs (i + 2)) (byte_at xs (i + 3))

abbrev pub u16_to_be : ℕ → List ℕ
u16_to_be x = (x / 256 % 256) ∷ (x % 256) ∷ []

abbrev pub u32_to_be : ℕ → List ℕ
u32_to_be x = (x / 16777216 % 256) ∷ (x / 65536 % 256) ∷ (x / 256 % 256) ∷ (x % 256) ∷ []

-- Reading back what was written.
pub u16_from_be-to_be : (x : ℕ) → IsU16 x → u16_from_be (x / 256 % 256) (x % 256) ≡ x
u16_from_be-to_be x h = omega arith

pub u32_from_be-to_be :
    (x : ℕ)
    → IsU32 x
    → u32_from_be (x / 16777216 % 256) (x / 65536 % 256) (x / 256 % 256) (x % 256) ≡ x
u32_from_be-to_be x h = omega arith

-- Four bytes are the four bytes of the word that they spell.
pub u32_to_be-from_be :
    (a b c d : ℕ)
    → IsByte a
    → IsByte b
    → IsByte c
    → IsByte d
    → u32_to_be (u32_from_be a b c d) ≡ a ∷ b ∷ c ∷ d ∷ []
u32_to_be-from_be a b c d ha hb hc hd = ground arith

pub u16_to_be-from_be : (a b : ℕ) → IsByte a → IsByte b → u16_to_be (u16_from_be a b) ≡ a ∷ b ∷ []
u16_to_be-from_be a b ha hb = ground arith

pub u32_from_be-lt :
    (a b c d : ℕ) → IsByte a → IsByte b → IsByte c → IsByte d → IsU32 (u32_from_be a b c d)
u32_from_be-lt a b c d ha hb hc hd = omega arith

pub byte_at-lt : (xs : List ℕ) (i : ℕ) → IsBytes xs → IsByte (byte_at xs i)
byte_at-lt [] i h = omega arith
byte_at-lt (x ∷ xs) zero h = h.0
byte_at-lt (x ∷ xs) (suc i) h = byte_at-lt xs i h.1

pub u32_at-lt : (xs : List ℕ) (i : ℕ) → IsBytes xs → IsU32 (u32_at xs i)
u32_at-lt xs i h = omega (
  arith,
  byte_at-lt xs i h,
  byte_at-lt xs (i + 1) h,
  byte_at-lt xs (i + 2) h,
  byte_at-lt xs (i + 3) h,
)

pub byte_at-append :
    (xs ys : List ℕ) (i j : ℕ) → j ≡ length xs + i → byte_at (xs ++ ys) j ≡ byte_at ys i
byte_at-append xs ys i j e = rw e (get_or-append xs ys i 0)

pub u32_at-append :
    (xs ys : List ℕ) (i j : ℕ) → j ≡ length xs + i → u32_at (xs ++ ys) j ≡ u32_at ys i
u32_at-append xs ys i j e = omega (
  arith,
  byte_at-append xs ys i j e,
  byte_at-append xs ys (i + 1) (j + 1) (omega arith),
  byte_at-append xs ys (i + 2) (j + 2) (omega arith),
  byte_at-append xs ys (i + 3) (j + 3) (omega arith),
)

-- A slice from index `n` on, with its first byte or word read off.
pub drop-byte :
    (xs : List ℕ) (n m : ℕ) → m ≡ n + 1 → n < length xs → drop n xs ≡ byte_at xs n ∷ drop m xs
drop-byte [] n m e h = absurd (omega arith)
drop-byte (x ∷ xs) zero m e h = rw e
drop-byte (x ∷ xs) (suc n) m e h =
    let e' : m ≡ suc (n + 1) = omega arith in rw e' (drop-byte xs n (n + 1) refl (omega arith))

pub drop-u16 :
    (xs : List ℕ) (n m : ℕ)
    → m ≡ n + 2
    → IsBytes xs
    → m ≤ length xs
    → drop n xs ≡ u16_to_be (u16_at xs n) ++ drop m xs
drop-u16 xs n m e b h =
    drop-byte xs n (n + 1) refl (omega arith)
    ∙ ap (◌∷◌ (byte_at xs n)) (drop-byte xs (n + 1) m (omega arith) (omega arith))
    ∙ ap (λ l. l ++ drop m xs)
        (sym (u16_to_be-from_be _ _ (byte_at-lt xs n b) (byte_at-lt xs (n + 1) b)))

pub drop-u32 :
    (xs : List ℕ) (n m : ℕ)
    → m ≡ n + 4
    → IsBytes xs
    → m ≤ length xs
    → drop n xs ≡ u32_to_be (u32_at xs n) ++ drop m xs
drop-u32 xs n m e b h =
    drop-byte xs n (n + 1) refl (omega arith)
    ∙ ap (λ l. byte_at xs n ∷ l) (drop-byte xs (n + 1) (n + 2) (omega arith) (omega arith))
    ∙ ap (λ l. byte_at xs n ∷ byte_at xs (n + 1) ∷ l)
        (drop-byte xs (n + 2) (n + 3) (omega arith) (omega arith))
    ∙ ap (λ l. byte_at xs n ∷ byte_at xs (n + 1) ∷ byte_at xs (n + 2) ∷ l)
        (drop-byte xs (n + 3) m (omega arith) (omega arith))
    ∙ ap (λ l. l ++ drop m xs)
        (sym (
          u32_to_be-from_be _ _ _ _ (byte_at-lt xs n b) (byte_at-lt xs (n + 1) b)
            (byte_at-lt xs (n + 2) b) (byte_at-lt xs (n + 3) b)))
