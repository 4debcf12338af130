-- ===== src/Srtp/Window/History.antt =====
-- The replay window of src/srtp.rs against the full list of the indices that it has accepted.
use rtp_engine.Base.{
  ℕ, zero, suc, ◌+◌, ◌-◌, ◌≤◌, ◌<◌, ◌≡◌, refl, inl, inr, Bool, true, false, not, ◌&&◌, ◌||◌,
  Bool-cases, Option, none, some, List, [], ◌∷◌, arith, ltb, leb, ◌==◌, if◌then◌else◌,
}
use rtp_engine.Srtp.Window.{ReplayWindow, test_bit, set_bit, shl64, admits, accept}
use rtp_engine.Srtp.Window.Bits.{test_bit-zero, test_bit-set_bit, test_bit-shl64}

-- Whether an index is in the list.
abbrev pub elem : ℕ → List ℕ → Bool
elem i [] = false
elem i (j ∷ js) = i == j || elem i js

-- Whether an index is less than 64 behind every index of the list.
abbrev pub recent : ℕ → List ℕ → Bool
recent i [] = true
recent i (j ∷ js) = ltb j (i + 64) && recent i js

-- What RFC 3711 asks for: the index is new, and not older than the window.
abbrev pub fresh : ℕ → List ℕ → Bool
fresh i seen = not (elem i seen) && recent i seen

-- The window holds the highest index of the list, and the bits say which of the 64 up to it are in
-- the list.
pub record Holds (highest bitmap : ℕ) (seen : List ℕ) : Type 0 where
  pub top : elem highest seen ≡ true
  pub above : (i : ℕ) → elem i seen ≡ true → i ≤ highest
  pub bits : (i : ℕ) → i ≤ highest → highest < i + 64 → test_bit bitmap (highest - i) ≡ elem i seen

abbrev pub CoversAt : Option ℕ → ℕ → List ℕ → Type 0
CoversAt none bitmap seen = seen ≡ []
CoversAt (some highest) bitmap seen = Holds highest bitmap seen

abbrev pub Covers : ReplayWindow → List ℕ → Type 0
Covers w seen = CoversAt w.highest w.seen seen

recent-of_bound :
    (i h : ℕ) (seen : List ℕ)
    → ((j : ℕ) → elem j seen ≡ true → j ≤ h)
    → h < i + 64
    → recent i seen ≡ true
recent-of_bound i h [] b l = refl
recent-of_bound i h (j ∷ js) b l =
    ground (arith, b j, recent-of_bound i h js (λ k e. b k (ground arith)) l)

not_recent : (i h : ℕ) (seen : List ℕ) → elem h seen ≡ true → i + 64 ≤ h → recent i seen ≡ false
not_recent i h [] e l = cc
not_recent i h (j ∷ js) e l = elim (Bool-cases (h == j)) [
  | inl s ↦ ground arith
  | inr n ↦ ground (arith, not_recent i h js (ground arith) l)
]

-- The test of the code on a window with a highest index is the test on the list.
admits-Holds :
    (h s i : ℕ) (seen : List ℕ)
    → Holds h s seen
    → admits (record { highest = some h; seen = s }) i ≡ fresh i seen
unfolding admits
admits-Holds h s i seen c =
    ground (arith, c.bits i, c.above i, recent-of_bound i h seen c.above, not_recent i h seen c.top)

-- The window admits an index exactly when it is fresh for the list that the window stands for.
pub admits-eq-fresh :
    (w : ReplayWindow) (i : ℕ) (seen : List ℕ) → Covers w seen → admits w i ≡ fresh i seen
unfolding admits
admits-eq-fresh w i seen c = go w.highest w.seen c
  where
    go :
        (o : Option ℕ) (s : ℕ)
        → CoversAt o s seen
        → admits (record { highest = o; seen = s }) i ≡ fresh i seen
    go none s c = ground arith
    go (some h) s c = admits-Holds h s i seen c

-- A late index sets its bit.
accept_late-Holds :
    (h s i : ℕ) (seen : List ℕ)
    → Holds h s seen
    → i ≤ h
    → h < i + 64
    → Holds h (set_bit s (h - i)) (i ∷ seen)
accept_late-Holds h s i seen c le near = record {
  top = ground (arith, c.top);
  above = λ j e. ground (arith, c.above j);
  bits = λ j a b. ground (arith, test_bit-set_bit s (h - i) (h - j), c.bits j);
}

-- The bitmap, moved up to a newer index.
abbrev moved_up : ℕ → ℕ → ℕ → ℕ
moved_up h s i = if leb 64 (i - h) then 0 else shl64 s (i - h)

moved_up_bits :
    (h s i j : ℕ) (seen : List ℕ)
    → Holds h s seen
    → h < i
    → j < i
    → i < j + 64
    → test_bit (moved_up h s i) (i - j) ≡ elem j seen
moved_up_bits h s i j seen c lt below near =
    let e : i - j - (i - h) ≡ h - j = omega arith in
    ground (
      arith,
      test_bit-zero (i - j),
      rw e at (test_bit-shl64 s (i - h) (i - j) (omega arith)),
      c.bits j,
      c.above j,
    )

accept_newer-Holds :
    (h s i : ℕ) (seen : List ℕ)
    → Holds h s seen
    → h < i
    → Holds i (set_bit (moved_up h s i) 0) (i ∷ seen)
accept_newer-Holds h s i seen c lt = record {
  top = ground arith;
  above = λ j e. ground (arith, c.above j);
  bits = λ j a b.
      ground (arith, test_bit-set_bit (moved_up h s i) 0 (i - j), moved_up_bits h s i j seen c lt);
}

pub test_bit-one : (k : ℕ) → test_bit 1 k ≡ (k == 0)
unfolding test_bit
test_bit-one zero = refl
test_bit-one (suc k) = ground (arith, test_bit-zero k)

first_Holds : (i : ℕ) → Holds i 1 (i ∷ [])
first_Holds i = record {
  top = ground arith;
  above = λ j e. ground arith;
  bits = λ j a b. ground (arith, test_bit-one (i - j));
}

fresh_near : (h s i : ℕ) (seen : List ℕ) → Holds h s seen → fresh i seen ≡ true → h < i + 64
fresh_near h s i seen c f = ground (arith, not_recent i h seen c.top)

-- Accepting a fresh index is adding it to the list.
pub accept-Covers :
    (w : ReplayWindow) (i : ℕ) (seen : List ℕ)
    → Covers w seen
    → fresh i seen ≡ true
    → Covers (accept w i) (i ∷ seen)
unfolding accept
accept-Covers w i seen c f = go w.highest w.seen c
  where
    go :
        (o : Option ℕ) (s : ℕ)
        → CoversAt o s seen
        → Covers (accept (record { highest = o; seen = s }) i) (i ∷ seen)
    go none s c = rw c (first_Holds i)
    go (some h) s c = elim (Bool-cases (leb i h)) [
      | inl le ↦ rw le (accept_late-Holds h s i seen c (ground arith) (fresh_near h s i seen c f))
      | inr gt ↦ rw gt (accept_newer-Holds h s i seen c (ground arith))
    ]
