-- ===== src/Srtp/Context/Sources.antt =====
-- The list of sources of SrtpContext of src/srtp.rs as a map from SSRC to receive state.
use rtp_engine.Base.{
  ℕ, ◌+◌, ◌≡◌, refl, ◌∙◌, inl, inr, false, Bool-cases, Option, Option-cases, none, some, List, [],
  ◌∷◌, ◌++◌, arith, ◌==◌, if◌then◌else◌, length, set,
}
use rtp_engine.Srtp.Source
use rtp_engine.Srtp.Source.{RecvState}
use rtp_engine.Srtp.Context.{SrtpContext, position, state_at, remember_source, is_none}

-- The state that the code works on for a source: the stored one, or a new one.
unfoldable pub lookup_state : List RecvState → ℕ → RecvState
unfolding position state_at
lookup_state rx ssrc = state_at (position ssrc rx) ssrc rx

pub lookup_state-cons :
    (s : RecvState) (rest : List RecvState) (q : ℕ)
    → lookup_state (s ∷ rest) q ≡ (if s.ssrc == q then s else lookup_state rest q)
unfolding lookup_state
lookup_state-cons s rest q = elim (Bool-cases (s.ssrc == q)) [
  | inl e ↦ rw e
  | inr n ↦ elim (Option-cases (position q rest)) [ inl m ↦ rw (n, m) | inr (i, m) ↦ rw (n, m) ]
]

-- The list with the state of one source replaced, or added at the end.
pub update : ℕ → RecvState → List RecvState → List RecvState
update ssrc state [] = state ∷ []
update ssrc state (s ∷ rest) = if s.ssrc == ssrc then state ∷ rest else s ∷ update ssrc state rest

-- What `remember_source` does to the list.
placed : Option ℕ → RecvState → List RecvState → List RecvState
placed none state rx = rx ++ (state ∷ [])
placed (some i) state rx = set rx i state

placed-position :
    (ssrc : ℕ) (state : RecvState) (rx : List RecvState)
    → placed (position ssrc rx) state rx ≡ update ssrc state rx
unfolding placed position update
placed-position ssrc state [] = refl
placed-position ssrc state (s ∷ rest) = elim (Bool-cases (s.ssrc == ssrc)) [
  | inl e ↦ rw e
  | inr n ↦ ground (arith, placed-position ssrc state rest)
]

pub rx-remember_source :
    (ctx : SrtpContext) (ssrc : ℕ) (state : RecvState)
    → (remember_source ctx (position ssrc ctx.rx) state).rx ≡ update ssrc state ctx.rx
unfolding remember_source placed
rx-remember_source ctx ssrc state = elim (Option-cases (position ssrc ctx.rx)) [
  | inl m ↦ ground (arith, placed-position ssrc state ctx.rx)
  | inr (i, m) ↦ ground (arith, placed-position ssrc state ctx.rx)
]

pub lookup_state-update :
    (ssrc q : ℕ) (state : RecvState) (rx : List RecvState)
    → state.ssrc ≡ ssrc
    → lookup_state (update ssrc state rx) q ≡ (if ssrc == q then state else lookup_state rx q)
unfolding update
lookup_state-update ssrc q state [] e = lookup_state-cons state [] q ∙ ground arith
lookup_state-update ssrc q state (s ∷ rest) e = ground (
  arith,
  lookup_state-cons state rest q,
  lookup_state-cons s rest q,
  lookup_state-cons s (update ssrc state rest) q,
  lookup_state-update ssrc q state rest e,
)

pub ssrc-lookup_state : (rx : List RecvState) (q : ℕ) → (lookup_state rx q).ssrc ≡ q
unfolding lookup_state Source.new
ssrc-lookup_state [] q = refl
ssrc-lookup_state (s ∷ rest) q =
    ground (arith, lookup_state-cons s rest q, ssrc-lookup_state rest q)

-- A source that is stored is found.
pub position-update :
    (ssrc : ℕ) (state : RecvState) (rx : List RecvState)
    → state.ssrc ≡ ssrc
    → is_none (position ssrc (update ssrc state rx)) ≡ false
unfolding position update
position-update ssrc state [] e = ground arith
position-update ssrc state (s ∷ rest) e = ground (arith, position-update ssrc state rest e)

pub length-update :
    (ssrc : ℕ) (state : RecvState) (rx : List RecvState)
    → length (update ssrc state rx)
      ≡ (if is_none (position ssrc rx) then length rx + 1 else length rx)
unfolding position update
length-update ssrc state [] = refl
length-update ssrc state (s ∷ rest) = ground (arith, length-update ssrc state rest)

pub session_auth_key-remember_source :
    (ctx : SrtpContext) (place : Option ℕ) (state : RecvState)
    → (remember_source ctx place state).session_auth_key ≡ ctx.session_auth_key
unfolding remember_source
session_auth_key-remember_source ctx none state = refl
session_auth_key-remember_source ctx (some i) state = refl
