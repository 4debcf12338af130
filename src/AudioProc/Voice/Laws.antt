-- ===== src/AudioProc/Voice/Laws.antt =====
-- When the voice processing of src/audio_proc/processor.rs runs.
use rtp_engine.Base.{
  ℕ, Bool, true, false, not, ◌||◌, Option, none, some, List, [], ◌∷◌, ◌≡◌, refl, ap, sym, ◌⊎◌, inl,
  inr, ◌==◌, if◌then◌else◌, subst, ==_iff,
}
use rtp_engine.AudioProc.Frame.{FrameAccumulator}
use rtp_engine.AudioProc.Frame
use rtp_engine.AudioProc.Voice.{
  Side, capture, render, State, negotiating, active, disabled, new, started, build_backend,
  negotiate, settle, attach,
}

-- The rates that WebRTC takes.
abbrev pub IsSupported : ℕ → Type 0
IsSupported rate = (rate == 8000 || (rate == 16000 || (rate == 32000 || rate == 48000))) ≡ true

-- What the state says of the rates that the two streams reported last.
abbrev pub Agrees : {Backend : Type 0} → Option ℕ → Option ℕ → State Backend → Type 0
Agrees c r (negotiating c_noted r_noted) = (c_noted ≡ c) × (r_noted ≡ r) × ((c ≡ none) ⊎ (r ≡ none))
Agrees c r (active rate backend) = (c ≡ some rate) × (r ≡ some rate) × IsSupported rate
Agrees c r disabled = Unit

-- The rate that a stream reported last, `before` if it reports none.
abbrev pub last_capture : Option ℕ → List (Side × ℕ) → Option ℕ
last_capture before [] = before
last_capture before ((capture, rate) ∷ calls) = last_capture (some rate) calls
last_capture before ((render, rate) ∷ calls) = last_capture before calls

abbrev pub last_render : Option ℕ → List (Side × ℕ) → Option ℕ
last_render before [] = before
last_render before ((capture, rate) ∷ calls) = last_render before calls
last_render before ((render, rate) ∷ calls) = last_render (some rate) calls

module _ {Backend : Type 0} (build : ℕ → Option Backend) (reinitialize : Backend → Backend) where
  unfoldable pub attach_all : State Backend → List (Side × ℕ) → State Backend
  attach_all state [] = state
  attach_all state ((side, rate) ∷ calls) =
      attach_all (attach build reinitialize state side rate) calls

  started-Agrees :
      (rate : ℕ) (built : Option Backend)
      → IsSupported rate
      → Agrees (some rate) (some rate) (started build reinitialize rate built)
  unfolding started
  started-Agrees rate none supported = tt
  started-Agrees rate (some backend) supported = (refl, refl, supported)

  by_tests :
      (c r : ℕ) (same supported : Bool) (accumulator : FrameAccumulator ℕ)
      → (same ≡ true → c ≡ r)
      → (supported ≡ true → IsSupported c)
      → Agrees (some c) (some r) (
          if not same then disabled else elim (if supported then some accumulator else none) [
            | none ↦ disabled
            | some made ↦ build_backend build reinitialize c
          ])
  unfolding build_backend
  by_tests c r false supported accumulator e h = tt
  by_tests c r true false accumulator e h = tt
  by_tests c r true true accumulator e h =
      subst (λ x. Agrees (some c) (some x) (build_backend build reinitialize c)) (e refl)
        (started-Agrees c (build c) (h refl))

  negotiate-Agrees : (c r : ℕ) → Agrees (some c) (some r) (negotiate build reinitialize c r)
  unfolding negotiate Frame.new
  negotiate-Agrees c r = by_tests c r (c == r) _ _ (==_iff c r).0 (λ h. h)

  settle-Agrees : (c r : Option ℕ) → Agrees c r (settle build reinitialize c r)
  unfolding settle
  settle-Agrees (some c) (some r) = negotiate-Agrees c r
  settle-Agrees (some c) none = (refl, refl, inr refl)
  settle-Agrees none r = (refl, refl, inl refl)

  restarted :
      (running rate : ℕ) (same : Bool) (backend : Backend)
      → (same ≡ true → running ≡ rate)
      → IsSupported running
      → Agrees
          (some rate)
          (some running)
          (if same then active running (reinitialize backend) else disabled)
        × Agrees
            (some running)
            (some rate)
            (if same then active running (reinitialize backend) else disabled)
  restarted running rate false backend e supported = (tt, tt)
  restarted running rate true backend e supported =
      ((sym (ap some (e refl)), refl, supported), (refl, sym (ap some (e refl)), supported))

  attach-Agrees_capture :
      (c r : Option ℕ) (state : State Backend) (rate : ℕ)
      → Agrees c r state
      → Agrees (some rate) r (attach build reinitialize state capture rate)
  unfolding attach
  attach-Agrees_capture c r (negotiating c_noted r_noted) rate (ec, er, missing) =
      subst (λ x. Agrees (some rate) x (settle build reinitialize (some rate) r_noted)) er
        (settle-Agrees (some rate) r_noted)
  attach-Agrees_capture c r (active running backend) rate (ec, er, supported) =
      subst
        (λ x.
          Agrees (some rate) x
            (if running == rate then active running (reinitialize backend) else disabled))
        (sym er)
        (restarted running rate (running == rate) backend (==_iff running rate).0 supported).0
  attach-Agrees_capture c r disabled rate agrees = tt

  attach-Agrees_render :
      (c r : Option ℕ) (state : State Backend) (rate : ℕ)
      → Agrees c r state
      → Agrees c (some rate) (attach build reinitialize state render rate)
  unfolding attach
  attach-Agrees_render c r (negotiating c_noted r_noted) rate (ec, er, missing) =
      subst (λ x. Agrees x (some rate) (settle build reinitialize c_noted (some rate))) ec
        (settle-Agrees c_noted (some rate))
  attach-Agrees_render c r (active running backend) rate (ec, er, supported) =
      subst
        (λ x.
          Agrees x (some rate)
            (if running == rate then active running (reinitialize backend) else disabled))
        (sym ec)
        (restarted running rate (running == rate) backend (==_iff running rate).0 supported).1
  attach-Agrees_render c r disabled rate agrees = tt

  attach_all-Agrees :
      (c r : Option ℕ) (state : State Backend) (calls : List (Side × ℕ))
      → Agrees c r state
      → Agrees (last_capture c calls) (last_render r calls) (attach_all state calls)
  unfolding attach_all
  attach_all-Agrees c r state [] agrees = agrees
  attach_all-Agrees c r state ((capture, rate) ∷ calls) agrees =
      attach_all-Agrees (some rate) r _ calls (attach-Agrees_capture c r state rate agrees)
  attach_all-Agrees c r state ((render, rate) ∷ calls) agrees =
      attach_all-Agrees c (some rate) _ calls (attach-Agrees_render c r state rate agrees)

  -- Over any sequence of streams that start and restart: while the processor runs, the last rates
  -- of the microphone and of the speaker are the one it runs at, one of the four that are
  -- supported; while it waits, it has noted the last rates, and one of the two has not come.
  pub new-attach_all-Agrees :
      (is_any_enabled : Bool) (calls : List (Side × ℕ))
      → Agrees
          (last_capture none calls)
          (last_render none calls)
          (attach_all (new is_any_enabled) calls)
  unfolding new
  new-attach_all-Agrees true calls =
      attach_all-Agrees none none (negotiating none none) calls (refl, refl, inl refl)
  new-attach_all-Agrees false calls = attach_all-Agrees none none disabled calls tt
