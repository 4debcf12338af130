-- ===== src/Srtp/Window/Tests.antt =====
-- The replay window of src/srtp.rs on short runs, and its theorems at concrete inputs.
use rtp_engine.Base.{ℕ, ◌≡◌, refl, List, [], ◌∷◌}
use rtp_engine.Srtp.Window.{empty, admits, accept, test_bit, set_bit, shl64}
use rtp_engine.Srtp.Window.Run.{offer_all, offer_all_to_list, Distinct, offer_all_refines}

-- A duplicate, a late one, one 64 behind, and one 63 behind.
abbrev offers : List ℕ
offers = 10 ∷ 10 ∷ 8 ∷ 100 ∷ 36 ∷ 37 ∷ 8 ∷ []

offers_run : offer_all empty [] offers ≡ 37 ∷ 100 ∷ 8 ∷ 10 ∷ []
unfolding offer_all admits accept test_bit set_bit shl64
offers_run = refl

offer_all_refines_example :
    (offer_all empty [] offers ≡ offer_all_to_list [] offers) × Distinct (offer_all empty [] offers)
offer_all_refines_example = offer_all_refines offers
