-- ===== src/Jitter/Arrival.antt =====
-- The arrival of a packet: `extend_seq`, `update_jitter` and `push_at` of src/jitter.rs.
use rtp_engine.Base.{
  ℕ, ◌+◌, ◌-◌, ◌*◌, ◌/◌, ◌%◌, Bool, true, false, ◌&&◌, List, [], none, some, ltb, leb,
  if◌then◌else◌, length,
}
use rtp_engine.Base.Float.{F64}
use rtp_engine.Jitter.Slots.{insert, remove, first_key}
use rtp_engine.Jitter.State.{
  JitterBuffer, BufferedPacket, count, discontinuity, difference, distance,
}

-- The cycle count after a packet `seq` that follows a packet `last`.
unfoldable pub next_cycles : ℕ → ℕ → ℕ → ℕ
next_cycles cycles last seq =
    if ltb seq last && ltb 0x8000 ((last + 65536 - seq) % 65536)
    then (cycles + 1) % 65536
    else if ltb last seq && ltb 0x8000 ((seq + 65536 - last) % 65536)
    then (cycles + 65535) % 65536
    else cycles

module _ {Float : Type 0} where
  -- The base references, set by the first packet.
  unfoldable pub first_arrival : JitterBuffer Float → ℕ → ℕ → ℕ → JitterBuffer Float
  first_arrival b seq timestamp now = elim b.base_timestamp [
    | none ↦ record b { base_timestamp = some timestamp; base_time = some now; last_seq = some seq }
    | some base ↦ b
  ]

  unfoldable pub cycles_after : JitterBuffer Float → ℕ → ℕ
  unfolding next_cycles
  cycles_after b seq = elim b.last_seq [
    | none ↦ b.seq_cycles
    | some last ↦ next_cycles b.seq_cycles last seq
  ]

  -- The extended sequence number, and the buffer with the new cycle count.
  unfoldable pub extend_seq : JitterBuffer Float → ℕ → ℕ × JitterBuffer Float
  unfolding cycles_after
  extend_seq b seq =
      let cycles = cycles_after b seq in
      (cycles * 65536 % 4294967296 + seq, record b { seq_cycles = cycles })

  -- The capacity check: the oldest packet makes room.
  unfoldable pub make_room : JitterBuffer Float → JitterBuffer Float
  make_room b =
      if leb b.config.max_packets (length b.packets)
      then elim (first_key b.packets) [
        | none ↦ b
        | some oldest_seq ↦ record b {
          packets = remove oldest_seq b.packets;
          stats = record b.stats { packets_dropped = count b.stats.packets_dropped };
        }
      ]
      else b

  unfoldable pub store : JitterBuffer Float → ℕ → BufferedPacket → JitterBuffer Float
  unfolding make_room
  store b extended_seq packet =
      let roomy = make_room b in
      record roomy {
        packets = insert extended_seq packet roomy.packets;
        last_seq = some packet.seq;
      }

  -- Playout starts over from the packet that arrives.
  unfoldable pub restart : JitterBuffer Float → ℕ → JitterBuffer Float
  restart b now = record b {
    packets = [];
    playout_seq = none;
    playing = false;
    base_time = some now;
  }

  -- What is done with a packet whose extended number is known.
  unfoldable pub place : JitterBuffer Float → ℕ → BufferedPacket → Bool × JitterBuffer Float
  unfolding store restart discontinuity
  place b extended_seq packet = elim b.playout_seq [
    | none ↦ (true, store b extended_seq packet)
    | some playout ↦
        if ltb extended_seq playout
        then (if leb (playout - extended_seq) (discontinuity b)
            then (
              false,
              record b {
                stats = record b.stats { packets_dropped = count b.stats.packets_dropped };
              },
            )
            else (true, store (restart b packet.received_at) extended_seq packet))
        else (true, store b extended_seq packet)
  ]

module _ (f : F64) where
  unfoldable pub update_jitter : JitterBuffer f.Value → ℕ → ℕ → JitterBuffer f.Value
  update_jitter b timestamp now = elim b.base_timestamp [
    | none ↦ b
    | some base_ts ↦ elim b.base_time [
      | none ↦ b
      | some base_time ↦
          let arrival_ts = (now - base_time) / 1000 * b.config.clock_rate / 1000000 in
          let send_ts = (timestamp + 4294967296 - base_ts) % 4294967296 in
          let transit = difference arrival_ts send_ts in
          record b {
            jitter_estimate = elim b.last_transit [
              | none ↦ b.jitter_estimate
              | some last_transit ↦
                  let d = f.of_ℕ (distance transit last_transit) in
                  f.add b.jitter_estimate (f.div (f.sub d b.jitter_estimate) (f.of_ℕ 16))
            ];
            last_transit = some transit;
          }
    ]
  ]

  unfoldable pub push_at : JitterBuffer f.Value → ℕ → ℕ → List ℕ → ℕ → Bool × JitterBuffer f.Value
  unfolding first_arrival extend_seq update_jitter place
  push_at b seq timestamp payload now =
      let counted = record b {
        stats = record b.stats { packets_received = count b.stats.packets_received };
      } in
      let (extended_seq, extended) = extend_seq (first_arrival counted seq timestamp now) seq in
      place (update_jitter extended timestamp now) extended_seq (record {
        seq = seq;
        timestamp = timestamp;
        payload = payload;
        received_at = now;
        synthesized = false;
      })
