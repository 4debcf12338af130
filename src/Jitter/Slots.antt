-- ===== src/Jitter/Slots.antt =====
-- The `BTreeMap<u32, _>` of the jitter buffer (src/jitter.rs): an association list in the order of
-- its keys.
use rtp_engine.Base.{
  ℕ, suc, ◌≤◌, ◌<◌, ◌≡◌, refl, List, [], ◌∷◌, Option, none, some, ltb, leb, ◌==◌, if◌then◌else◌,
  arith, length,
}

module _ {ℓ} {A : Type ℓ} where
  -- `get`
  abbrev pub lookup : ℕ → List (ℕ × A) → Option A
  lookup k [] = none
  lookup k ((j, v) ∷ rest) = if j == k then some v else lookup k rest

  -- `insert`: a value under the same key is replaced.
  abbrev pub insert : ℕ → A → List (ℕ × A) → List (ℕ × A)
  insert k v [] = (k, v) ∷ []
  insert k v ((j, w) ∷ rest) =
      let further = insert k v rest in
      if ltb k j then (k, v) ∷ (j, w) ∷ rest else if k == j then (k, v) ∷ rest else (j, w) ∷ further

  abbrev pub remove : ℕ → List (ℕ × A) → List (ℕ × A)
  remove k [] = []
  remove k ((j, v) ∷ rest) =
      let further = remove k rest in if j == k then rest else (j, v) ∷ further

  -- `keys().next()`
  abbrev pub first_key : List (ℕ × A) → Option ℕ
  first_key [] = none
  first_key ((j, v) ∷ rest) = some j

  -- `range(k..).next()`, its key.
  abbrev pub first_key_from : ℕ → List (ℕ × A) → Option ℕ
  first_key_from k [] = none
  first_key_from k ((j, v) ∷ rest) = if leb k j then some j else first_key_from k rest

  abbrev pub values : List (ℕ × A) → List A
  values [] = []
  values ((j, v) ∷ rest) = v ∷ values rest

  -- Keys from `low` on, each greater than the one before.
  abbrev pub SortedFrom : ℕ → List (ℕ × A) → Type 0
  SortedFrom low [] = Unit
  SortedFrom low ((j, v) ∷ rest) = (low ≤ j) × SortedFrom (suc j) rest

  pub SortedFrom-weaken :
      (low lower : ℕ) (slots : List (ℕ × A))
      → lower ≤ low
      → SortedFrom low slots
      → SortedFrom lower slots
  SortedFrom-weaken low lower [] le s = tt
  SortedFrom-weaken low lower ((j, v) ∷ rest) le s = (omega (arith, s.0), s.1)

  pub insert-SortedFrom :
      (low k : ℕ) (v : A) (slots : List (ℕ × A))
      → low ≤ k
      → SortedFrom low slots
      → SortedFrom low (insert k v slots)
  insert-SortedFrom low k v [] le s = (le, tt)
  insert-SortedFrom low k v ((j, w) ∷ rest) le s =
      ground (arith, insert-SortedFrom (suc j) k v rest)

  pub remove-SortedFrom :
      (low k : ℕ) (slots : List (ℕ × A)) → SortedFrom low slots → SortedFrom low (remove k slots)
  remove-SortedFrom low k [] s = tt
  remove-SortedFrom low k ((j, w) ∷ rest) s =
      ground (arith, remove-SortedFrom (suc j) k rest, SortedFrom-weaken (suc j) low rest)

  pub length-insert :
      (k : ℕ) (v : A) (slots : List (ℕ × A)) → length (insert k v slots) ≤ suc (length slots)
  length-insert k v [] = omega arith
  length-insert k v ((j, w) ∷ rest) = ground (arith, length-insert k v rest)

  pub length-remove_le : (k : ℕ) (slots : List (ℕ × A)) → length (remove k slots) ≤ length slots
  length-remove_le k [] = omega arith
  length-remove_le k ((j, w) ∷ rest) = ground (arith, length-remove_le k rest)

  pub lookup-insert :
      (low k : ℕ) (v : A) (slots : List (ℕ × A))
      → SortedFrom low slots
      → lookup k (insert k v slots) ≡ some v
  lookup-insert low k v [] s = ground arith
  lookup-insert low k v ((j, w) ∷ rest) s = ground (arith, lookup-insert (suc j) k v rest)

  -- Below the first key there is nothing.
  pub lookup-below :
      (low k : ℕ) (slots : List (ℕ × A)) → SortedFrom low slots → k < low → lookup k slots ≡ none
  lookup-below low k [] s lt = refl
  lookup-below low k ((j, w) ∷ rest) s lt = ground (arith, lookup-below (suc j) k rest)

  -- Without the lowest key that could be there, the rest lies behind it.
  pub remove-SortedFrom-suc :
      (k : ℕ) (slots : List (ℕ × A)) → SortedFrom k slots → SortedFrom (suc k) (remove k slots)
  remove-SortedFrom-suc k [] s = tt
  remove-SortedFrom-suc k ((j, w) ∷ rest) s =
      ground (arith, remove-SortedFrom (suc j) k rest, SortedFrom-weaken (suc j) (suc k) rest)

  pub lookup-none-SortedFrom :
      (k : ℕ) (slots : List (ℕ × A))
      → SortedFrom k slots
      → lookup k slots ≡ none
      → SortedFrom (suc k) slots
  lookup-none-SortedFrom k [] s e = tt
  lookup-none-SortedFrom k ((j, w) ∷ rest) s e = ground arith

  pub first_key_from-SortedFrom :
      (k n : ℕ) (slots : List (ℕ × A))
      → SortedFrom k slots
      → first_key_from k slots ≡ some n
      → SortedFrom n slots × (k ≤ n)
  first_key_from-SortedFrom k n [] s e = absurd (ground arith)
  first_key_from-SortedFrom k n ((j, w) ∷ rest) s e = ground arith

  pub first_key-SortedFrom :
      (low n : ℕ) (slots : List (ℕ × A))
      → SortedFrom low slots
      → first_key slots ≡ some n
      → SortedFrom n slots
  first_key-SortedFrom low n [] s e = absurd (ground arith)
  first_key-SortedFrom low n ((j, w) ∷ rest) s e = ground arith

  -- The oldest entry out.
  pub remove_first-SortedFrom :
      (low n : ℕ) (slots : List (ℕ × A))
      → SortedFrom low slots
      → first_key slots ≡ some n
      → SortedFrom low (remove n slots) × (suc (length (remove n slots)) ≡ length slots)
  remove_first-SortedFrom low n [] s e = absurd (ground arith)
  remove_first-SortedFrom low n ((j, w) ∷ rest) s e =
      ground (arith, SortedFrom-weaken (suc j) low rest)
