-- ===== src/Error.antt =====
-- src/error.rs: the error type and its result alias. The message texts, and the I/O error that
-- `Network` wraps, are left out.
use rtp_engine.Base.{◌≡◌, refl, ◌⊎◌, inl, inr}

pub data Error : Type 0 where
  codec rtp rtcp srtp srtp_replay device network stun invalid_parameter : Error

pub data Result {ℓ} (A : Type ℓ) : Type ℓ where
  ok : A → Result A
  err : Error → Result A

-- `?`
infixl 5 ◌>>=◌
abbrev pub ◌>>=◌ {ℓ κ} : {A : Type ℓ} {B : Type κ} → Result A → (A → Result B) → Result B
ok a >>= f = f a
err e >>= f = err e

-- A result is a value or an error.
pub Result-cases {ℓ} :
    {Value : Type ℓ} (r : Result Value)
    → ((v : Value) × (r ≡ ok v)) ⊎ ((cause : Error) × (r ≡ err cause))
Result-cases (ok v) = inl (v, refl)
Result-cases (err cause) = inr (cause, refl)

-- `.map(...)` of a result.
abbrev pub map_ok {ℓ κ} : {A : Type ℓ} {B : Type κ} → (A → B) → Result A → Result B
map_ok f (ok a) = ok (f a)
map_ok f (err e) = err e
