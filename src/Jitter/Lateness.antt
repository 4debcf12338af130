-- ===== src/Jitter/Lateness.antt =====
-- Which packets the jitter buffer takes, and where it puts them (`push_at` of src/jitter.rs).
use rtp_engine.Base.{
  ℕ, ◌+◌, ◌*◌, ◌/◌, ◌%◌, ◌≤◌, ◌<◌, max, ◌≡◌, refl, ap, subst, sym, ◌∙◌, Bool, true, false, List,
  Option, some, arith, ◌⊎◌,
}
use rtp_engine.Base.Float.{F64}
use rtp_engine.Jitter.Slots.{lookup, lookup-insert}
use rtp_engine.Jitter.State.{JitterBuffer, BufferedPacket, new, reset, count, discontinuity}
use rtp_engine.Jitter.Arrival.{
  cycles_after, next_cycles, first_arrival, extend_seq, update_jitter, make_room, store, restart,
  place, push_at,
}
use rtp_engine.Jitter.Invariant.{IsReady, position, make_room-Ready}

-- Less than half the sequence space apart.
abbrev pub Near : ℕ → ℕ → Type 0
Near n m = (n < m + 32768) × (m < n + 32768) × (n < 4294967296) × (m < 4294967296)

next_cycles-Near :
    (n m : ℕ) → Near n m → next_cycles (n / 65536) (n % 65536) (m % 65536) ≡ m / 65536
unfolding next_cycles
next_cycles-Near n m near = ground arith

-- The packet with the number `m`, as it arrives.
abbrev pub packet_of : ℕ → ℕ → List ℕ → ℕ → BufferedPacket
packet_of m timestamp payload now = record {
  seq = m % 65536;
  timestamp = timestamp;
  payload = payload;
  received_at = now;
  synthesized = false;
}

module _ {Float : Type 0} where
  store-lookup :
      (b : JitterBuffer Float) (extended_seq : ℕ) (packet : BufferedPacket)
      → IsReady b
      → lookup extended_seq (store b extended_seq packet).packets ≡ some packet
  unfolding store
  store-lookup b extended_seq packet ready =
      lookup-insert (position b.playout_seq) extended_seq packet (make_room b).packets
        (make_room-Ready b ready).0

  -- What becomes of a packet with the extended number `m`: refused, with the buffer as it was, or
  -- accepted and found under its number.
  abbrev pub Outcome :
      ℕ
      → Option ℕ
      → List (ℕ × BufferedPacket)
      → ℕ
      → BufferedPacket
      → Bool × JitterBuffer Float
      → Type 0
  Outcome window playout packets m packet result =
      ((result.0 ≡ false)
        × (m < position playout)
        × (position playout ≤ m + window)
        × (result.1.packets ≡ packets)
        × (result.1.playout_seq ≡ playout))
      ⊎ ((result.0 ≡ true)
          × ((position playout ≤ m) ⊎ (m + window < position playout))
          × (lookup m result.1.packets ≡ some packet))

  place-Outcome :
      (b : JitterBuffer Float) (m : ℕ) (packet : BufferedPacket)
      → IsReady b
      → Outcome (discontinuity b) b.playout_seq b.packets m packet (place b m packet)
  unfolding place restart
  place-Outcome b m packet ready =
      ground
        (arith, store-lookup b m packet ready, store-lookup (restart b packet.received_at) m packet)

  -- The last packet received was number `n`, counted without wrap.
  abbrev pub Follows : JitterBuffer Float → ℕ → Type 0
  Follows b n = (b.last_seq ≡ some (n % 65536)) × (b.seq_cycles ≡ n / 65536)

  cycles_after-Near :
      (b : JitterBuffer Float) (n m : ℕ)
      → Follows b n
      → Near n m
      → cycles_after b (m % 65536) ≡ m / 65536
  unfolding cycles_after
  cycles_after-Near b n m follows near =
      simp (cycles_after, follows.0, follows.1) (next_cycles-Near n m near)

  extend_seq-Near :
      (b : JitterBuffer Float) (n m : ℕ)
      → Follows b n
      → Near n m
      → extend_seq b (m % 65536) ≡ (m, record b { seq_cycles = m / 65536 })
  unfolding extend_seq
  extend_seq-Near b n m follows near =
      let e : m / 65536 * 65536 % 4294967296 + m % 65536 ≡ m = omega (arith, near) in
      simp (extend_seq, cycles_after-Near b n m follows near, e)

module _ (f : F64) where
  -- reset gives the buffer that new makes from its configuration, whatever happened before.
  pub reset-new : (b : JitterBuffer f.Value) → reset f b ≡ new f b.config
  unfolding reset new
  reset-new b = refl

  -- The rest of the buffer while the jitter is estimated.
  update_jitter-Ready :
      (b : JitterBuffer f.Value) (timestamp now : ℕ)
      → ((update_jitter f b timestamp now).packets ≡ b.packets)
        × ((update_jitter f b timestamp now).playout_seq ≡ b.playout_seq)
        × ((update_jitter f b timestamp now).config ≡ b.config)
  unfolding update_jitter
  update_jitter-Ready b timestamp now = ground arith

  first_arrival-past :
      (b : JitterBuffer f.Value) (seq timestamp now base : ℕ)
      → b.base_timestamp ≡ some base
      → first_arrival b seq timestamp now ≡ b
  unfolding first_arrival
  first_arrival-past b seq timestamp now base e = simp (first_arrival, e)

  -- The buffer when a packet numbered `m` is placed.
  abbrev pub arrival : JitterBuffer f.Value → ℕ → ℕ → ℕ → JitterBuffer f.Value
  arrival b m timestamp now =
      update_jitter f
        (record b {
          seq_cycles = m / 65536;
          stats = record b.stats { packets_received = count b.stats.packets_received };
        })
        timestamp now

  pub push_at-place :
      (b : JitterBuffer f.Value) (n m timestamp : ℕ) (payload : List ℕ) (now base : ℕ)
      → Follows b n
      → Near n m
      → b.base_timestamp ≡ some base
      → push_at f b (m % 65536) timestamp payload now
        ≡ place (arrival b m timestamp now) m (packet_of m timestamp payload now)
  unfolding push_at
  push_at-place b n m timestamp payload now base follows near e =
      let counted = record b {
        stats = record b.stats { packets_received = count b.stats.packets_received };
      } in
      let placing : ℕ × JitterBuffer f.Value → Bool × JitterBuffer f.Value =
        λ r. place (update_jitter f r.1 timestamp now) r.0 (packet_of m timestamp payload now) in
      ap (λ first. placing (extend_seq first (m % 65536)))
        (first_arrival-past counted (m % 65536) timestamp now base e)
      ∙ ap placing (extend_seq-Near counted n m follows near)

  -- After the last packet received was number n, counted without wrap, a packet sent as number m,
  -- less than half the sequence space from n, is refused where playout is at most max_packets (one,
  -- when that is 0) past m, with the buffered packets and the playout position as they were; in
  -- every other case it is accepted and lies in the buffer under m, rollovers included.
  pub push_at-Outcome :
      (b : JitterBuffer f.Value) (n m timestamp : ℕ) (payload : List ℕ) (now base : ℕ)
      → IsReady b
      → Follows b n
      → Near n m
      → b.base_timestamp ≡ some base
      → Outcome
          (discontinuity b)
          b.playout_seq
          b.packets
          m
          (packet_of m timestamp payload now)
          (push_at f b (m % 65536) timestamp payload now)
  unfolding push_at discontinuity
  push_at-Outcome b n m timestamp payload now base ready follows near e =
      let placed = arrival b m timestamp now in
      let packet = packet_of m timestamp payload now in
      let counted = record b {
        seq_cycles = m / 65536;
        stats = record b.stats { packets_received = count b.stats.packets_received };
      } in
      let (same_packets, same_playout, same_config) = update_jitter-Ready counted timestamp now in
      let result = place placed m packet in
      let still : IsReady placed = rw (same_packets, same_playout, same_config) ready in
      let outcome = place-Outcome placed m packet still in
      let window = discontinuity placed in
      subst (Outcome (discontinuity b) b.playout_seq b.packets m packet)
        (sym (push_at-place b n m timestamp payload now base follows near e))
        (subst
          (λ c. Outcome (max c.max_packets 1 % 4294967296) b.playout_seq b.packets m packet result)
          same_config
          (subst (λ q. Outcome window q b.packets m packet result) same_playout
            (subst (λ s. Outcome window placed.playout_seq s m packet result) same_packets
              outcome)))
