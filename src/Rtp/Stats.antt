-- ===== src/Rtp/Stats.antt =====
-- RtpStats and RtpCounters of src/rtp/stats.rs. The counters are atomics that all clones share; a
-- call is one step on a record of their values, and `f64` arithmetic is a parameter.
pub mod Tracking
pub mod Laws
mod Tests
use Prim.Native.String.{String}
use rtp_engine.Base.{
  ℕ, ◌+◌, ◌-◌, ◌*◌, ◌/◌, ◌%◌, ◌^◌, Bool, true, false, ◌&&◌, ◌||◌, List, [], ◌∷◌, ltb, if◌then◌else◌,
}
use rtp_engine.Base.Float.{F64}

pub record RtpCounters : Type 0 where
  pub packets_sent : ℕ
  pub packets_received : ℕ
  pub bytes_sent : ℕ
  pub bytes_received : ℕ
  pub packets_lost : ℕ
  pub jitter_us : ℕ
  pub codec_name : String
  pub highest_seq : ℕ
  pub expected_packets : ℕ
  pub initialized : Bool
  pub base_seq : ℕ

unfoldable pub new : String → RtpCounters
new codec_name = record {
  packets_sent = 0;
  packets_received = 0;
  bytes_sent = 0;
  bytes_received = 0;
  packets_lost = 0;
  jitter_us = 0;
  codec_name = codec_name;
  highest_seq = 0;
  expected_packets = 0;
  initialized = false;
  base_seq = 0;
}

-- `fetch_add` on an `AtomicU64` wraps.
abbrev pub fetch_add : ℕ → ℕ → ℕ
fetch_add a b = (a + b) % 18446744073709551616

unfoldable pub record_sent : RtpCounters → ℕ → RtpCounters
record_sent c bytes = record c {
  packets_sent = fetch_add c.packets_sent 1;
  bytes_sent = fetch_add c.bytes_sent bytes;
}

-- u16 `a.wrapping_sub(b)`
abbrev pub wrapping_sub16 : ℕ → ℕ → ℕ
wrapping_sub16 a b = (a + 65536 - b) % 65536

abbrev pub wrapping_sub32 : ℕ → ℕ → ℕ
wrapping_sub32 a b = (a + 4294967296 - b) % 4294967296

-- The cycle count that a packet `seq` is taken to have, after the extended number `prev`.
unfoldable pub new_cycles : ℕ → ℕ → ℕ
new_cycles prev seq =
    let prev_seq = prev % 65536 in
    let cycles = prev / 65536 in
    if ltb seq prev_seq && ltb 0x8000 (wrapping_sub16 prev_seq seq)
    then (cycles + 1) % 4294967296
    else if ltb prev_seq seq && ltb 0x8000 (wrapping_sub16 seq prev_seq)
    then wrapping_sub32 cycles 1
    else cycles

-- `(new_cycles << 16) | (seq as u32)`
unfoldable pub new_extended : ℕ → ℕ → ℕ
unfolding new_cycles
new_extended prev seq = new_cycles prev seq * 65536 % 4294967296 + seq

-- `record_received` after the first packet.
unfoldable pub track : RtpCounters → ℕ → RtpCounters
unfolding new_cycles new_extended
track c seq =
    let extended = new_extended c.highest_seq seq in
    if ltb c.highest_seq extended || ltb (c.highest_seq / 65536) (new_cycles c.highest_seq seq)
    then record c {
      highest_seq = extended;
      expected_packets = (wrapping_sub32 extended c.base_seq + 1) % 4294967296;
    }
    else c

unfoldable pub record_received : RtpCounters → ℕ → ℕ → RtpCounters
unfolding track
record_received c bytes seq =
    let counted = record c {
      packets_received = fetch_add c.packets_received 1;
      bytes_received = fetch_add c.bytes_received bytes;
    } in
    if c.initialized then track counted seq else record counted {
      initialized = true;
      base_seq = seq;
      highest_seq = seq;
      expected_packets = 1;
    }

unfoldable pub reset : RtpCounters → RtpCounters
reset c = record c {
  packets_sent = 0;
  packets_received = 0;
  bytes_sent = 0;
  bytes_received = 0;
  packets_lost = 0;
  jitter_us = 0;
  highest_seq = 0;
  expected_packets = 0;
  initialized = false;
  base_seq = 0;
}

unfoldable pub extended_highest_seq : RtpCounters → ℕ
extended_highest_seq c = c.highest_seq

unfoldable pub seq_cycles : RtpCounters → ℕ
seq_cycles c = c.highest_seq / 65536 % 65536

-- Packets from the network in order, each with its length and sequence number.
unfoldable pub receive_all : RtpCounters → List (ℕ × ℕ) → RtpCounters
unfolding record_received
receive_all c [] = c
receive_all c ((bytes, seq) ∷ rest) = receive_all (record_received c bytes seq) rest

-- `RtpStats`, with `jitter_ms` of the type of floats.
pub record RtpStats (Float : Type 0) : Type 0 where
  pub packets_sent : ℕ
  pub packets_received : ℕ
  pub bytes_sent : ℕ
  pub bytes_received : ℕ
  pub packets_lost : ℕ
  pub jitter_ms : Float
  pub codec_name : String
  pub extended_highest_seq : ℕ
  pub seq_cycles : ℕ

module _ (f : F64) where
  -- The snapshot, and the counters with the loss stored.
  unfoldable pub snapshot : RtpCounters → RtpStats f.Value × RtpCounters
  snapshot c =
      let lost = c.expected_packets - c.packets_received in
      (
        record {
          packets_sent = c.packets_sent;
          packets_received = c.packets_received;
          bytes_sent = c.bytes_sent;
          bytes_received = c.bytes_received;
          packets_lost = lost;
          jitter_ms = f.div (f.of_ℕ c.jitter_us) (f.of_ℕ 1000);
          codec_name = c.codec_name;
          extended_highest_seq = c.highest_seq;
          seq_cycles = c.highest_seq / 65536 % 65536;
        },
        record c { packets_lost = lost },
      )

  unfoldable pub update_jitter : RtpCounters → ℕ → RtpCounters
  update_jitter c transit_diff_us =
      let prev_jitter = f.of_ℕ c.jitter_us in
      let d = f.of_ℕ transit_diff_us in
      let new_jitter = f.add prev_jitter (f.div (f.sub d prev_jitter) (f.of_ℕ 16)) in
      record c { jitter_us = f.to_unsigned 18446744073709551615 new_jitter }
