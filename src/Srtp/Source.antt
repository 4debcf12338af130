-- ===== src/Srtp/Source.antt =====
-- SendState and RecvState of src/srtp.rs, with the estimate of the rollover counter (RFC 3711,
-- appendix A). The difference of two sequence numbers is an `i32` in the source; the two tests of
-- it are written here as tests of sums.
mod Tests
use rtp_engine.Base.{
  ℕ, ◌+◌, ◌-◌, ◌*◌, ◌/◌, ◌%◌, ◌<◌, ◌≡◌, Bool, false, Option, none, some, arith, ltb, if◌then◌else◌,
}
use rtp_engine.Srtp.Window.{ReplayWindow, empty}

pub record SendState : Type 0 where
  pub roc : ℕ
  pub s_l : ℕ
  pub initialized : Bool

-- `SendState::default()`
abbrev pub idle : SendState
idle = record { roc = 0; s_l = 0; initialized = false }

pub record RecvState : Type 0 where
  pub ssrc : ℕ
  pub roc : ℕ
  pub s_l : ℕ
  pub window : ReplayWindow

unfoldable pub new : ℕ → RecvState
new ssrc = record { ssrc = ssrc; roc = 0; s_l = 0; window = empty }

unfoldable pub estimate_roc : RecvState → ℕ → ℕ
estimate_roc state seq = elim state.window.highest [
  | none ↦ state.roc
  | some _ ↦
      if ltb (state.s_l + 0x8000) seq
      then (state.roc + 4294967296 - 1) % 4294967296
      else if ltb (seq + 0x8000) state.s_l
      then (state.roc + 1) % 4294967296
      else state.roc
]

-- The estimate is the true rollover counter of a packet whose 48-bit index is less than half the
-- sequence space from the highest index authenticated, either way.
pub estimate_roc_near :
    (state : RecvState) (highest index : ℕ)
    → state.window.highest ≡ some highest
    → highest ≡ state.roc * 65536 + state.s_l
    → state.s_l < 65536
    → index < 281474976710656
    → index < highest + 32768
    → highest < index + 32768
    → estimate_roc state (index % 65536) ≡ index / 65536
unfolding estimate_roc
estimate_roc_near state highest index known split small bound below above = ground arith
