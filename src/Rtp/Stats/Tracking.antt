-- ===== src/Rtp/Stats/Tracking.antt =====
-- The extended sequence numbers that RtpCounters::record_received of src/rtp/stats.rs keeps,
-- against the true numbers of the packets, which do not wrap.
use rtp_engine.Base.{ℕ, ◌+◌, ◌-◌, ◌/◌, ◌%◌, ◌≤◌, ◌<◌, ◌≡◌, max, true, false, List, [], ◌∷◌, arith}
use rtp_engine.Rtp.Stats.{RtpCounters, new_cycles, new_extended, record_received, receive_all}

-- The counters stand at the true number `e`, counted from `base`.
pub record Stands (c : RtpCounters) (base e : ℕ) : Type 0 where
  pub started : c.initialized ≡ true
  pub base_is : c.base_seq ≡ base
  pub highest : c.highest_seq ≡ e
  pub ordered : base ≤ e
  pub fits : e < 4294967295
  pub expected : c.expected_packets ≡ e - base + 1

-- The true number `t` is less than half the sequence space from `e`, either way.
abbrev pub Near : ℕ → ℕ → Type 0
Near e t = (t < e + 32768) × (e < t + 32768) × (t < 4294967295)

new_extended-Near : (e t : ℕ) → e < 4294967295 → Near e t → new_extended e (t % 65536) ≡ t
unfolding new_extended
new_extended-Near e t h n = ground arith

new_cycles-Near : (e t : ℕ) → e < 4294967295 → Near e t → new_cycles e (t % 65536) ≡ t / 65536
unfolding new_cycles
new_cycles-Near e t h n = ground arith

-- One packet moves the counters to the higher of the two numbers.
pub record_received-Stands :
    (c : RtpCounters) (base e t bytes : ℕ)
    → Stands c base e
    → Near e t
    → Stands (record_received c bytes (t % 65536)) base (max e t)
unfolding record_received
record_received-Stands c base e t bytes s n =
    ground (arith, new_extended-Near e t s.fits n, new_cycles-Near e t s.fits n)

-- Each packet is near the highest number before it.
abbrev pub AllNear : ℕ → List (ℕ × ℕ) → Type 0
AllNear e [] = Unit
AllNear e ((bytes, t) ∷ rest) = Near e t × AllNear (max e t) rest

abbrev pub highest_of : ℕ → List (ℕ × ℕ) → ℕ
highest_of e [] = e
highest_of e ((bytes, t) ∷ rest) = highest_of (max e t) rest

-- What the packets look like on the wire: the numbers cut to 16 bits.
abbrev pub on_wire : List (ℕ × ℕ) → List (ℕ × ℕ)
on_wire [] = []
on_wire ((bytes, t) ∷ rest) = (bytes, t % 65536) ∷ on_wire rest

receive_all-Stands :
    (c : RtpCounters) (base e : ℕ) (packets : List (ℕ × ℕ))
    → Stands c base e
    → AllNear e packets
    → Stands (receive_all c (on_wire packets)) base (highest_of e packets)
unfolding receive_all
receive_all-Stands c base e [] s n = s
receive_all-Stands c base e ((bytes, t) ∷ rest) s n =
    receive_all-Stands (record_received c bytes (t % 65536)) base (max e t) rest
      (record_received-Stands c base e t bytes s n.0) n.1

first_packet-Stands :
    (c : RtpCounters) (first bytes : ℕ)
    → c.initialized ≡ false
    → first < 65536
    → Stands (record_received c bytes first) first first
unfolding record_received
first_packet-Stands c first bytes new small = ground arith

-- The counters start to count at a packet `first`, and are given the packets `packets`.
pub receive_all_stand :
    (c : RtpCounters) (first bytes : ℕ) (packets : List (ℕ × ℕ))
    → c.initialized ≡ false
    → first < 65536
    → AllNear first packets
    → Stands (receive_all c ((bytes, first) ∷ on_wire packets)) first (highest_of first packets)
unfolding receive_all
receive_all_stand c first bytes packets new small near =
    receive_all-Stands (record_received c bytes first) first first packets
      (first_packet-Stands c first bytes new small) near
