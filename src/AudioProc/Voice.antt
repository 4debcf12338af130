-- ===== src/AudioProc/Voice.antt =====
-- The lifecycle of VoiceProcessor of src/audio_proc/processor.rs, built with the feature
-- `audio-proc`: the two streams report the rates of their devices. The backend of WebRTC is a
-- parameter.
pub mod Laws
mod Tests
use rtp_engine.Base.{ℕ, Bool, true, false, not, Option, none, some, ◌==◌, if◌then◌else◌}
use rtp_engine.AudioProc.Frame

pub data Side : Type 0 where
  capture render : Side

pub data State (Backend : Type 0) : Type 0 where
  negotiating : (capture render : Option ℕ) → State Backend
  active : (rate : ℕ) → Backend → State Backend
  disabled : State Backend

-- `new` where the configuration enables something, and where it does not.
unfoldable pub new : {Backend : Type 0} → Bool → State Backend
new is_any_enabled = if is_any_enabled then negotiating none none else disabled

abbrev pub is_active : {Backend : Type 0} → State Backend → Bool
is_active (negotiating c r) = false
is_active (active rate backend) = true
is_active disabled = false

module _ {Backend : Type 0} (build : ℕ → Option Backend) (reinitialize : Backend → Backend) where
  -- `build_backend` with what the library's constructor returned.
  unfoldable pub started : ℕ → Option Backend → State Backend
  started rate none = disabled
  started rate (some backend) = active rate backend

  unfoldable pub build_backend : ℕ → State Backend
  unfolding started
  build_backend rate = started rate (build rate)

  unfoldable pub negotiate : ℕ → ℕ → State Backend
  unfolding build_backend
  negotiate capture_rate render_rate =
      if not (capture_rate == render_rate)
      then disabled
      else elim (Frame.new {Sample = ℕ} capture_rate) [
        | none ↦ disabled
        | some accumulator ↦ build_backend capture_rate
      ]

  -- `attach` once the rate is noted.
  unfoldable pub settle : Option ℕ → Option ℕ → State Backend
  unfolding negotiate
  settle (some capture_rate) (some render_rate) = negotiate capture_rate render_rate
  settle capture_rate render_rate = negotiating capture_rate render_rate

  unfoldable pub attach : State Backend → Side → ℕ → State Backend
  unfolding settle
  attach (negotiating c r) capture rate = settle (some rate) r
  attach (negotiating c r) render rate = settle c (some rate)
  attach (active running backend) side rate =
      if running == rate then active running (reinitialize backend) else disabled
  attach disabled side rate = disabled
