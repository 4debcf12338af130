-- ===== src/Jitter/Playout.antt =====
-- Playout: `pop_at` of src/jitter.rs with `should_start_playout`, `adapt_delay` and
-- `estimate_timestamp`. A result `none` of `adapt_delay` and `pop_at` is the panic of `clamp`.
use rtp_engine.Base.{
  ℕ, ◌+◌, ◌-◌, ◌*◌, ◌/◌, ◌%◌, min, max, Bool, true, false, [], ◌∷◌, Option, none, some, ltb, leb,
  if◌then◌else◌, length,
}
use rtp_engine.Base.Float.{F64}
use rtp_engine.Jitter.Slots.{lookup, remove, first_key, first_key_from}
use rtp_engine.Jitter.State.{
  fixed, adaptive, JitterBuffer, BufferedPacket, count, discontinuity, jitter_ms,
}

-- `Ord::clamp`, which panics when the bounds are crossed.
unfoldable pub clamp : ℕ → ℕ → ℕ → Option ℕ
clamp v low high =
    if ltb high low then none else some (if ltb v low then low else if ltb high v then high else v)

-- The delay one step nearer to the target.
unfoldable pub step_delay : ℕ → ℕ → ℕ
step_delay current target =
    if ltb current target
    then min 4294967295 (current + max ((target - current) / 4) 1)
    else if ltb target current
    then current - max ((current - target) / 8) 1
    else current

-- `adapt_delay` of one delay, for the jitter-based target.
unfoldable pub adapt : ℕ → ℕ → ℕ → ℕ → Option ℕ
unfolding clamp step_delay
adapt current wanted min_ms max_ms = elim (clamp wanted min_ms max_ms) [
  | none ↦ none
  | some target ↦ clamp (step_delay current target) min_ms max_ms
]

module _ {Float : Type 0} where
  unfoldable pub should_start_playout : JitterBuffer Float → ℕ → Bool
  should_start_playout b now = elim b.packets [
    | [] ↦ false
    | slot ∷ rest ↦ elim b.base_time [
      | none ↦ false
      | some base_time ↦ leb (b.current_delay_ms * 1000000) (now - base_time)
    ]
  ]

  -- The sequence number to play: the current one, or the lowest one buffered when playout starts.
  unfoldable pub start : JitterBuffer Float → ℕ → Option (ℕ × JitterBuffer Float)
  unfolding should_start_playout
  start b now = elim b.playout_seq [
    | some seq ↦ some (seq, b)
    | none ↦
        if should_start_playout b now
        then elim (first_key b.packets) [
          | none ↦ none
          | some first_seq ↦
              some (first_seq, record b { playout_seq = some first_seq; playing = true })
        ]
        else none
  ]

  -- The sequence number that is played for a target: the target, or the next buffered one when it
  -- lies far ahead; nothing when nothing is buffered from the target on.
  unfoldable pub resync : JitterBuffer Float → ℕ → Option ℕ
  unfolding discontinuity
  resync b target_seq = elim (lookup target_seq b.packets) [
    | some packet ↦ some target_seq
    | none ↦ elim (first_key_from target_seq b.packets) [
      | none ↦ none
      | some next ↦ some (if ltb (discontinuity b) (next - target_seq) then next else target_seq)
    ]
  ]

  unfoldable pub estimate_timestamp : JitterBuffer Float → ℕ → ℕ
  estimate_timestamp b extended_seq =
      let samples_per_frame = b.config.clock_rate / 50 in
      let base : ℕ = elim b.base_timestamp [ none ↦ 0 | some ts ↦ ts ] in
      let playout : ℕ = elim b.playout_seq [ none ↦ extended_seq | some seq ↦ seq ] in
      let seq_offset = (extended_seq + 4294967296 - playout) % 4294967296 in
      (base + seq_offset * samples_per_frame % 4294967296) % 4294967296

  -- The packet with that number out of the buffer, or an empty one in its place.
  unfoldable pub take_or_conceal : JitterBuffer Float → ℕ → ℕ → BufferedPacket × JitterBuffer Float
  unfolding estimate_timestamp
  take_or_conceal b target_seq now = elim (lookup target_seq b.packets) [
    | some packet ↦ (packet, record b { packets = remove target_seq b.packets })
    | none ↦ (
      record {
        seq = target_seq % 65536;
        timestamp = estimate_timestamp b target_seq;
        payload = [];
        received_at = now;
        synthesized = true;
      },
      record b { stats = record b.stats { packets_lost = count b.stats.packets_lost } },
    )
  ]

module _ (f : F64) where
  unfoldable pub adapt_delay : JitterBuffer f.Value → Option (JitterBuffer f.Value)
  unfolding adapt
  adapt_delay b = elim b.config.mode [
    | fixed delay_ms ↦ some b
    | adaptive target_ms min_ms max_ms ↦
        let wanted = f.to_unsigned 4294967295 (f.mul (jitter_ms f b) (f.of_ℕ 2)) in
        elim (adapt b.current_delay_ms wanted min_ms max_ms) [
          | none ↦ none
          | some delay ↦ some (record b { current_delay_ms = delay })
        ]
  ]

  -- The buffer after `target_seq` was played.
  unfoldable pub advance : JitterBuffer f.Value → ℕ → JitterBuffer f.Value
  advance b target_seq = record b {
    playout_seq = some ((target_seq + 1) % 4294967296);
    stats = record b.stats {
      packets_played = count b.stats.packets_played;
      buffer_depth = length b.packets;
      current_delay_ms = b.current_delay_ms;
      observed_jitter_ms = jitter_ms f b;
    };
  }

  unfoldable pub play :
      JitterBuffer f.Value → ℕ → ℕ → Option (Option BufferedPacket × JitterBuffer f.Value)
  unfolding take_or_conceal advance adapt_delay
  play b target_seq now =
      let (packet, taken) = take_or_conceal b target_seq now in
      elim (adapt_delay (advance taken target_seq)) [
        | none ↦ none
        | some adapted ↦ some (some packet, adapted)
      ]

  unfoldable pub pop_at :
      JitterBuffer f.Value → ℕ → Option (Option BufferedPacket × JitterBuffer f.Value)
  unfolding start resync play
  pop_at b now = elim (start b now) [
    | none ↦ some (none, b)
    | some started ↦
        let (target_seq, playing) = started in
        elim (resync playing target_seq) [
          | none ↦ some (none, playing)
          | some played_seq ↦ play playing played_seq now
        ]
  ]
