-- ===== src/Srtp/Context/Sending.antt =====
-- The rollover counter that SrtpContext::protect_rtp of src/srtp.rs sends with.
use rtp_engine.Base.{ℕ, zero, suc, ◌+◌, ◌*◌, ◌%◌, ◌/◌, ◌<◌, ◌≡◌, ◌≢◌, true, arith}
use rtp_engine.Srtp.Source.{SendState, idle}
use rtp_engine.Srtp.Context.{advance}

-- The send state after `suc k` packets with consecutive sequence numbers from `first` on.
unfoldable pub send_run : ℕ → ℕ → SendState
unfolding advance
send_run first zero = advance idle first
send_run first (suc k) = advance (send_run first k) ((first + suc k) % 65536)

-- The 48-bit index of the last packet sent, from which its initial counter block is made.
abbrev pub index_sent : SendState → ℕ
index_sent tx = tx.roc * 65536 + tx.s_l

pub record Stands (tx : SendState) (index : ℕ) : Type 0 where
  pub started : tx.initialized ≡ true
  pub roc_is : tx.roc ≡ index / 65536
  pub last_is : tx.s_l ≡ index % 65536

pub send_run-Stands :
    (first k : ℕ)
    → first < 65536
    → first + k < 281474976710656
    → Stands (send_run first k) (first + k)
unfolding send_run
send_run-Stands first zero h l = ground arith
send_run-Stands first (suc k) h l =
    let s = send_run-Stands first k h (omega arith) in ground (arith, s)

-- A sender that numbers its packets consecutively, from any first number, never sends two under one
-- index while the number, counted without wrap, is below 2 ^ 48.
pub index_sent_unique :
    (first j k : ℕ)
    → first < 65536
    → first + k < 281474976710656
    → j < k
    → index_sent (send_run first j) ≢ index_sent (send_run first k)
index_sent_unique first j k h l lt =
    let a = send_run-Stands first j h (omega arith) in
    let b = send_run-Stands first k h l in omega (arith, a.roc_is, a.last_is, b.roc_is, b.last_is)
