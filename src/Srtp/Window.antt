-- ===== src/Srtp/Window.antt =====
-- ReplayWindow of src/srtp.rs. The bitmap is a 64-bit word; a single bit of it is reached by
-- recursion on the bit's number.
pub mod Bits
pub mod History
pub mod Run
mod Tests
use rtp_engine.Base.{
  ℕ, zero, suc, ◌+◌, ◌-◌, ◌*◌, ◌/◌, ◌%◌, Bool, true, false, not, ◌&&◌, Option, none, some, ltb, leb,
  ◌==◌, if◌then◌else◌,
}

pub record ReplayWindow : Type 0 where
  pub highest : Option ℕ
  pub seen : ℕ

-- `REPLAY_WINDOW`
abbrev pub replay_window : ℕ
replay_window = 64

-- `ReplayWindow::default()`
abbrev pub empty : ReplayWindow
empty = record { highest = none; seen = 0 }

-- `s & (1 << k) != 0`
unfoldable pub test_bit : ℕ → ℕ → Bool
test_bit s zero = s % 2 == 1
test_bit s (suc k) = test_bit (s / 2) k

-- `s | (1 << k)`
unfoldable pub set_bit : ℕ → ℕ → ℕ
set_bit s zero = s / 2 * 2 + 1
set_bit s (suc k) = set_bit (s / 2) k * 2 + s % 2

-- `s << k` on a `u64`, for k < 64
unfoldable pub shl64 : ℕ → ℕ → ℕ
shl64 s zero = s
shl64 s (suc k) = shl64 s k * 2 % 18446744073709551616

unfoldable pub admits : ReplayWindow → ℕ → Bool
admits w index = elim w.highest [
  | none ↦ true
  | some highest ↦
      if ltb highest index
      then true
      else let behind = highest - index in ltb behind replay_window && not (test_bit w.seen behind)
]

unfoldable pub accept : ReplayWindow → ℕ → ReplayWindow
accept w index = elim w.highest [
  | none ↦ record { highest = some index; seen = 1 }
  | some highest ↦
      if leb index highest
      then record w { seen = set_bit w.seen (highest - index) }
      else let ahead = index - highest in
        let shifted = if leb replay_window ahead then 0 else shl64 w.seen ahead in
        record { highest = some index; seen = set_bit shifted 0 }
]
