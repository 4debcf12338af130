-- ===== src/Srtp/Window/Run.antt =====
-- A whole run of the replay window of src/srtp.rs: indices are offered, and those that it admits
-- are accepted, as `unprotect_rtp` and `unprotect_rtcp` do.
use rtp_engine.Base.{ℕ, ◌≡◌, refl, inl, inr, false, Bool-cases, List, [], ◌∷◌, arith, if◌then◌else◌}
use rtp_engine.Srtp.Window.{ReplayWindow, empty, admits, accept}
use rtp_engine.Srtp.Window.History.{elem, fresh, Covers, admits-eq-fresh, accept-Covers}

-- The indices accepted, the latest first.
unfoldable pub offer_all : ReplayWindow → List ℕ → List ℕ → List ℕ
offer_all w seen [] = seen
offer_all w seen (i ∷ is) =
    let taken = offer_all (accept w i) (i ∷ seen) is in
    let refused = offer_all w seen is in if admits w i then taken else refused

-- The same with the whole list in place of the window.
unfoldable pub offer_all_to_list : List ℕ → List ℕ → List ℕ
offer_all_to_list seen [] = seen
offer_all_to_list seen (i ∷ is) =
    let taken = offer_all_to_list (i ∷ seen) is in
    let refused = offer_all_to_list seen is in if fresh i seen then taken else refused

abbrev pub Distinct : List ℕ → Type 0
Distinct [] = Unit
Distinct (i ∷ is) = (elem i is ≡ false) × Distinct is

offer_all-eq :
    (w : ReplayWindow) (seen is : List ℕ)
    → Covers w seen
    → offer_all w seen is ≡ offer_all_to_list seen is
unfolding offer_all offer_all_to_list
offer_all-eq w seen [] c = refl
offer_all-eq w seen (i ∷ is) c = elim (Bool-cases (fresh i seen)) [
  | inl f ↦
      rw (admits-eq-fresh w i seen c, f)
        (offer_all-eq (accept w i) (i ∷ seen) is (accept-Covers w i seen c f))
  | inr n ↦ rw (admits-eq-fresh w i seen c, n) (offer_all-eq w seen is c)
]

offer_all_to_list-Distinct :
    (seen is : List ℕ) → Distinct seen → Distinct (offer_all_to_list seen is)
unfolding offer_all_to_list
offer_all_to_list-Distinct seen [] d = d
offer_all_to_list-Distinct seen (i ∷ is) d = elim (Bool-cases (fresh i seen)) [
  | inl f ↦ rw f (offer_all_to_list-Distinct (i ∷ seen) is (ground arith, d))
  | inr n ↦ rw n (offer_all_to_list-Distinct seen is d)
]

-- Over any sequence of indices, with any wraps of the window, a new window accepts exactly those
-- that a receiver with the full list of accepted indices would: the ones that are not in the list
-- and less than 64 behind all of it. So it accepts no index twice.
pub offer_all_refines :
    (is : List ℕ)
    → (offer_all empty [] is ≡ offer_all_to_list [] is) × Distinct (offer_all empty [] is)
offer_all_refines is =
    let e = offer_all-eq empty [] is refl in (e, rw e (offer_all_to_list-Distinct [] is tt))
