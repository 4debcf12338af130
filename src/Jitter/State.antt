-- ===== src/Jitter/State.antt =====
-- The state of a jitter buffer, its constructor and its queries (src/jitter.rs).
use rtp_engine.Base.{
  ℕ, ◌+◌, ◌-◌, ◌%◌, max, Bool, true, false, List, [], ◌∷◌, Option, none, some, leb, if◌then◌else◌,
  length,
}
use rtp_engine.Base.Float.{F64}
use rtp_engine.Jitter.Slots.{lookup, values}

pub data JitterMode : Type 0 where
  fixed : (delay_ms : ℕ) → JitterMode
  adaptive : (target_ms min_ms max_ms : ℕ) → JitterMode

abbrev pub default_mode : JitterMode
default_mode = adaptive 60 20 200

pub record JitterConfig : Type 0 where
  pub mode : JitterMode
  pub clock_rate : ℕ
  pub max_packets : ℕ

abbrev pub default_config : JitterConfig
default_config = record { mode = default_mode; clock_rate = 8000; max_packets = 50 }

pub record BufferedPacket : Type 0 where
  pub seq : ℕ
  pub timestamp : ℕ
  pub payload : List ℕ
  pub received_at : ℕ
  pub synthesized : Bool

pub record JitterStats (Float : Type 0) : Type 0 where
  pub packets_received : ℕ
  pub packets_dropped : ℕ
  pub packets_lost : ℕ
  pub packets_played : ℕ
  pub buffer_depth : ℕ
  pub current_delay_ms : ℕ
  pub observed_jitter_ms : Float

-- A signed difference of two unsigned numbers, for the `i64` transit times; `negsuc n` is -(n + 1).
pub data ℤ : Type 0 where
  pos : ℕ → ℤ
  negsuc : ℕ → ℤ

abbrev pub difference : ℕ → ℕ → ℤ
difference a b = if leb b a then pos (a - b) else negsuc (b - a - 1)

-- `(a - b).abs()`
abbrev pub distance : ℤ → ℤ → ℕ
distance (pos a) (pos b) = max (a - b) (b - a)
distance (pos a) (negsuc b) = a + b + 1
distance (negsuc a) (pos b) = a + b + 1
distance (negsuc a) (negsuc b) = max (a - b) (b - a)

pub record JitterBuffer (Float : Type 0) : Type 0 where
  pub config : JitterConfig
  pub packets : List (ℕ × BufferedPacket)
  pub playout_seq : Option ℕ
  pub seq_cycles : ℕ
  pub last_seq : Option ℕ
  pub current_delay_ms : ℕ
  pub jitter_estimate : Float
  pub last_transit : Option ℤ
  pub stats : JitterStats Float
  pub base_timestamp : Option ℕ
  pub base_time : Option ℕ
  pub playing : Bool

unfoldable pub initial_delay : JitterMode → ℕ
initial_delay (fixed delay_ms) = delay_ms
initial_delay (adaptive target_ms min_ms max_ms) = target_ms

-- A statistics counter, a `u64`, one higher.
abbrev pub count : ℕ → ℕ
count n = (n + 1) % 18446744073709551616

module _ (f : F64) where
  unfoldable pub no_stats : JitterStats f.Value
  no_stats = record {
    packets_received = 0;
    packets_dropped = 0;
    packets_lost = 0;
    packets_played = 0;
    buffer_depth = 0;
    current_delay_ms = 0;
    observed_jitter_ms = f.of_ℕ 0;
  }

  unfoldable pub new : JitterConfig → JitterBuffer f.Value
  unfolding no_stats initial_delay
  new config = record {
    config = config;
    packets = [];
    playout_seq = none;
    seq_cycles = 0;
    last_seq = none;
    current_delay_ms = initial_delay config.mode;
    jitter_estimate = f.of_ℕ 0;
    last_transit = none;
    stats = no_stats;
    base_timestamp = none;
    base_time = none;
    playing = false;
  }

  unfoldable pub reset : JitterBuffer f.Value → JitterBuffer f.Value
  unfolding no_stats initial_delay
  reset b = record b {
    packets = [];
    playout_seq = none;
    seq_cycles = 0;
    last_seq = none;
    jitter_estimate = f.of_ℕ 0;
    last_transit = none;
    base_timestamp = none;
    base_time = none;
    playing = false;
    stats = no_stats;
    current_delay_ms = initial_delay b.config.mode;
  }

  unfoldable pub jitter_ms : JitterBuffer f.Value → f.Value
  jitter_ms b = f.mul (f.div b.jitter_estimate (f.of_ℕ b.config.clock_rate)) (f.of_ℕ 1000)

  unfoldable pub stats : JitterBuffer f.Value → JitterStats f.Value
  unfolding jitter_ms
  stats b = record b.stats {
    buffer_depth = length b.packets;
    current_delay_ms = b.current_delay_ms;
    observed_jitter_ms = jitter_ms b;
  }

module _ {Float : Type 0} where
  -- The packets, and the buffer without them.
  unfoldable pub flush : JitterBuffer Float → List BufferedPacket × JitterBuffer Float
  flush b = (values b.packets, record b { packets = [] })

  unfoldable pub peek_next : JitterBuffer Float → Option BufferedPacket
  peek_next b = elim b.playout_seq [ none ↦ none | some seq ↦ lookup seq b.packets ]

  unfoldable pub delay_ms : JitterBuffer Float → ℕ
  delay_ms b = b.current_delay_ms

  unfoldable pub len : JitterBuffer Float → ℕ
  len b = length b.packets

  unfoldable pub is_empty : JitterBuffer Float → Bool
  is_empty b = elim b.packets [ [] ↦ true | slot ∷ rest ↦ false ]

  -- `max_packets.max(1) as u32`
  unfoldable pub discontinuity : JitterBuffer Float → ℕ
  discontinuity b = max b.config.max_packets 1 % 4294967296
