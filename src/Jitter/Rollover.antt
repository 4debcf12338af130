-- ===== src/Jitter/Rollover.antt =====
-- A late packet around a rollover of the sequence number (`push_at` of src/jitter.rs).
use rtp_engine.Base.{
  ℕ, ◌+◌, ◌-◌, ◌/◌, ◌%◌, ◌≤◌, ◌<◌, max, ◌≡◌, refl, ap, subst, sym, ◌∙◌, false, List, [], ◌∷◌, some,
  arith,
}
use rtp_engine.Base.Float.{F64}
use rtp_engine.Jitter.State.{JitterBuffer, BufferedPacket, count, discontinuity}
use rtp_engine.Jitter.Arrival.{update_jitter, make_room, store, restart, place, push_at}
use rtp_engine.Jitter.Lateness.{Near, Follows, packet_of, arrival, push_at-place}

module _ {Float : Type 0} where
  place-late :
      (b : JitterBuffer Float) (m playout : ℕ) (packet : BufferedPacket)
      → b.playout_seq ≡ some playout
      → m < playout
      → playout ≤ m + discontinuity b
      → ((place b m packet).1.seq_cycles ≡ b.seq_cycles)
        × ((place b m packet).1.last_seq ≡ b.last_seq)
        × ((place b m packet).1.playout_seq ≡ b.playout_seq)
        × ((place b m packet).1.base_timestamp ≡ b.base_timestamp)
        × ((place b m packet).1.config ≡ b.config)
  unfolding place
  place-late b m playout packet at_playout late near = ground arith

  store-cleared :
      (b : JitterBuffer Float) (m : ℕ) (packet : BufferedPacket)
      → b.packets ≡ []
      → (store b m packet).packets ≡ (m, packet) ∷ []
  unfolding store make_room
  store-cleared b m packet e = ground arith

  place-restart :
      (b : JitterBuffer Float) (m playout : ℕ) (packet : BufferedPacket)
      → b.playout_seq ≡ some playout
      → m + discontinuity b < playout
      → (place b m packet).1.packets ≡ (m, packet) ∷ []
  unfolding place restart
  place-restart b m playout packet at_playout far =
      ground (arith, store-cleared (restart b packet.received_at) m packet refl)

module _ (f : F64) where
  update_jitter-keeps :
      (b : JitterBuffer f.Value) (timestamp now : ℕ)
      → ((update_jitter f b timestamp now).seq_cycles ≡ b.seq_cycles)
        × ((update_jitter f b timestamp now).last_seq ≡ b.last_seq)
        × ((update_jitter f b timestamp now).playout_seq ≡ b.playout_seq)
        × ((update_jitter f b timestamp now).config ≡ b.config)
        × ((update_jitter f b timestamp now).base_timestamp ≡ b.base_timestamp)
  unfolding update_jitter
  update_jitter-keeps b timestamp now = ground arith

  -- After the last packet received was number n, and with playout at `playout`.
  abbrev Stands : JitterBuffer f.Value → ℕ → ℕ → ℕ → ℕ → Type 0
  Stands b n base playout window =
      Follows b n
      × (b.base_timestamp ≡ some base)
      × (b.playout_seq ≡ some playout)
      × (discontinuity b ≡ window)

  -- A packet m of the cycle before the one of n, refused as late, leaves the buffer as if the last
  -- one received had been number n - 65536.
  late-Stands :
      (b : JitterBuffer f.Value) (n m timestamp : ℕ) (payload : List ℕ)
      (now base playout window : ℕ)
      → Stands b n base playout window
      → Near n m
      → m < playout
      → playout ≤ m + window
      → m / 65536 < n / 65536
      → Stands (push_at f b (m % 65536) timestamp payload now).1 (n - 65536) base playout window
  unfolding discontinuity
  late-Stands b n m timestamp payload now base playout window (follows, at_base, at_playout, wide)
        near late recent before =
      let counted = record b {
        seq_cycles = m / 65536;
        stats = record b.stats { packets_received = count b.stats.packets_received };
      } in
      let (same_cycles, same_last, same_playout, same_config, same_base) =
        update_jitter-keeps counted timestamp now in
      let placed = arrival f b m timestamp now in
      let still : discontinuity placed ≡ window =
        ap (λ c. max c.max_packets 1 % 4294967296) same_config ∙ wide in
      let (cycles, last, stays, based, config) =
        place-late placed m playout (packet_of m timestamp payload now) (same_playout ∙ at_playout)
          late (omega (arith, still, recent)) in
      subst (λ r. Stands r.1 (n - 65536) base playout window)
        (sym (push_at-place f b n m timestamp payload now base follows near at_base))
        (
          (
            last ∙ same_last ∙ follows.0 ∙ ap some (omega arith),
            cycles ∙ same_cycles ∙ (omega (arith, near, before)),
          ),
          based ∙ same_base ∙ at_base,
          stays ∙ same_playout ∙ at_playout,
          ap (λ c. max c.max_packets 1 % 4294967296) config ∙ still,
        )

  -- A packet far behind playout starts the buffer over.
  far_behind :
      (b : JitterBuffer f.Value) (n m timestamp : ℕ) (payload : List ℕ)
      (now base playout window : ℕ)
      → Stands b n base playout window
      → Near n m
      → m + window < playout
      → (push_at f b (m % 65536) timestamp payload now).1.packets
        ≡ (m, packet_of m timestamp payload now) ∷ []
  unfolding discontinuity
  far_behind b n m timestamp payload now base playout window (follows, at_base, at_playout, wide)
        near far =
      let counted = record b {
        seq_cycles = m / 65536;
        stats = record b.stats { packets_received = count b.stats.packets_received };
      } in
      let (same_cycles, same_last, same_playout, same_config, same_base) =
        update_jitter-keeps counted timestamp now in
      let placed = arrival f b m timestamp now in
      let still : discontinuity placed ≡ window =
        ap (λ c. max c.max_packets 1 % 4294967296) same_config ∙ wide in
      ap (λ r. r.1.packets) (push_at-place f b n m timestamp payload now base follows near at_base)
      ∙ place-restart placed m playout (packet_of m timestamp payload now)
          (same_playout ∙ at_playout) (omega (arith, still, far))

  -- Once playout has begun, when the last packet received was number n, counted without wrap, and a
  -- packet m of the cycle before, less than half the sequence space from n, is refused as late, then
  -- the next packet, n + 1, throws out all that is buffered and is stored under the number
  -- n + 1 - 65536, for a max_packets of at most 32767.
  pub late_then_next_clears :
      (b : JitterBuffer f.Value) (n m base playout now later : ℕ) (timestamp next_timestamp : ℕ)
      (payload next_payload : List ℕ)
      → Follows b n
      → Near n m
      → n < 4294967295
      → b.base_timestamp ≡ some base
      → b.playout_seq ≡ some playout
      → m < playout
      → playout ≤ m + discontinuity b
      → discontinuity b ≤ 32767
      → m / 65536 < n / 65536
      → (push_at f
          (push_at f b (m % 65536) timestamp payload now).1
          ((n + 1) % 65536)
          next_timestamp
          next_payload
          later).1.packets
        ≡ (n + 1 - 65536, packet_of (n + 1) next_timestamp next_payload later) ∷ []
  late_then_next_clears b n m base playout now later timestamp next_timestamp payload next_payload
        follows near small at_base at_playout late recent window before =
      let after = (push_at f b (m % 65536) timestamp payload now).1 in
      let stands =
        late-Stands b n m timestamp payload now base playout (discontinuity b)
          (follows, at_base, at_playout, refl) near late recent before in
      let high : 65536 ≤ n = omega (arith, before) in
      let same : (n + 1 - 65536) % 65536 ≡ (n + 1) % 65536 = omega (arith, high) in
      let cleared =
        far_behind after (n - 65536) (n + 1 - 65536) next_timestamp next_payload later base playout
          (discontinuity b) stands (omega (arith, high, small))
          (omega (arith, near, late, window, high)) in
      subst
        (λ s.
          (push_at f after s next_timestamp next_payload later).1.packets
          ≡ (
            n + 1 - 65536,
            record {
              seq = s;
              timestamp = next_timestamp;
              payload = next_payload;
              received_at = later;
              synthesized = false;
            },
          )
            ∷ [])
        same cleared
