-- ===== src/Jitter/Run.antt =====
-- Any sequence of arrivals and playouts of the jitter buffer (src/jitter.rs).
use rtp_engine.Base.{
  ℕ, ◌≡◌, refl, subst, sym, ◌∙◌, List, [], ◌∷◌, Option, none, some, Option-cases, arith, inl, inr,
}
use rtp_engine.Base.Float.{F64}
use rtp_engine.Jitter.State.{JitterBuffer, BufferedPacket, JitterConfig, new, count}
use rtp_engine.Jitter.Arrival.{
  first_arrival, extend_seq, update_jitter, make_room, store, restart, place, push_at,
}
use rtp_engine.Jitter.Playout.{start, resync, take_or_conceal, advance, adapt_delay, play, pop_at}
use rtp_engine.Jitter.Invariant.{IsReady, push_at-Ready, pop_at-Ready}
use rtp_engine.Jitter.Delay.{IsOrdered, adapt_delay-returns}

pub data Event : Type 0 where
  arrives : (seq timestamp : ℕ) → (payload : List ℕ) → (now : ℕ) → Event
  plays : (now : ℕ) → Event

module _ {Float : Type 0} where
  store-config :
      (b : JitterBuffer Float) (extended_seq : ℕ) (packet : BufferedPacket)
      → (store b extended_seq packet).config ≡ b.config
  unfolding store make_room
  store-config b extended_seq packet = ground arith

  place-config :
      (b : JitterBuffer Float) (extended_seq : ℕ) (packet : BufferedPacket)
      → (place b extended_seq packet).1.config ≡ b.config
  unfolding place restart
  place-config b extended_seq packet = ground (
    arith,
    store-config b extended_seq packet,
    store-config (restart b packet.received_at) extended_seq packet,
  )

  first_arrival-config :
      (b : JitterBuffer Float) (seq timestamp now : ℕ)
      → (first_arrival b seq timestamp now).config ≡ b.config
  unfolding first_arrival
  first_arrival-config b seq timestamp now = ground arith

  start-config :
      (b : JitterBuffer Float) (now target : ℕ) (started : JitterBuffer Float)
      → start b now ≡ some (target, started)
      → started.config ≡ b.config
  unfolding start
  start-config b now target started e = ground arith

  take_or_conceal-config :
      (b : JitterBuffer Float) (target now : ℕ) → (take_or_conceal b target now).1.config ≡ b.config
  unfolding take_or_conceal
  take_or_conceal-config b target now = ground arith

module _ (f : F64) where
  update_jitter-config :
      (b : JitterBuffer f.Value) (timestamp now : ℕ)
      → (update_jitter f b timestamp now).config ≡ b.config
  unfolding update_jitter
  update_jitter-config b timestamp now = ground arith

  push_at-config :
      (b : JitterBuffer f.Value) (seq timestamp : ℕ) (payload : List ℕ) (now : ℕ)
      → (push_at f b seq timestamp payload now).1.config ≡ b.config
  unfolding push_at extend_seq
  push_at-config b seq timestamp payload now =
      let counted = record b {
        stats = record b.stats { packets_received = count b.stats.packets_received };
      } in
      let extended = (extend_seq (first_arrival counted seq timestamp now) seq).1 in
      place-config (update_jitter f extended timestamp now) _ _
      ∙ update_jitter-config extended timestamp now
      ∙ first_arrival-config counted seq timestamp now

  adapt_delay-config :
      (b adapted : JitterBuffer f.Value)
      → adapt_delay f b ≡ some adapted
      → adapted.config ≡ b.config
  unfolding adapt_delay
  adapt_delay-config b adapted e = ground arith

  -- Playing a number gives a packet and a buffer.
  play-returns :
      (b : JitterBuffer f.Value) (target now : ℕ)
      → IsOrdered b.config.mode
      → (after : JitterBuffer f.Value) × (play f b target now
          ≡ some (some (take_or_conceal b target now).0, after))
        × (after.config ≡ b.config)
  unfolding play advance
  play-returns b target now ordered =
      let taken = (take_or_conceal b target now).1 in
      let same = take_or_conceal-config b target now in
      let (after, runs, within) =
        adapt_delay-returns f (advance f taken target)
          (subst (λ c. IsOrdered c.mode) (sym same) ordered) in
      (after, simp (play, runs), adapt_delay-config (advance f taken target) after runs ∙ same)

  pub pop_at-returns :
      (b : JitterBuffer f.Value) (now : ℕ)
      → IsOrdered b.config.mode
      → (packet : Option BufferedPacket) × (after : JitterBuffer f.Value) × (pop_at f b now
          ≡ some (packet, after))
        × (after.config ≡ b.config)
  unfolding pop_at
  pop_at-returns b now ordered = elim (Option-cases (start b now)) [
    | inl waiting ↦ (none, b, simp (pop_at, waiting), refl)
    | inr (found, starts) ↦
        let same = start-config b now found.0 found.1 starts in
        elim (Option-cases (resync found.1 found.0)) [
          | inl paused ↦ (none, found.1, simp (pop_at, starts, paused), same)
          | inr (played, synced) ↦
              let (after, runs, kept) =
                play-returns found.1 played now
                  (subst (λ c. IsOrdered c.mode) (sym same) ordered) in
              (
                some (take_or_conceal found.1 played now).0,
                after,
                simp (pop_at, starts, synced) runs,
                kept ∙ same,
              )
        ]
  ]

  unfoldable pub run : JitterBuffer f.Value → List Event → Option (JitterBuffer f.Value)
  run b [] = some b
  run b (arrives seq timestamp payload now ∷ later) =
      run (push_at f b seq timestamp payload now).1 later
  run b (plays now ∷ later) = elim (pop_at f b now) [
    | none ↦ none
    | some (packet, after) ↦ run after later
  ]

  run-Ready :
      (b : JitterBuffer f.Value) (events : List Event)
      → IsOrdered b.config.mode
      → IsReady b
      → (after : JitterBuffer f.Value) × (run b events ≡ some after)
        × IsReady after
        × (after.config ≡ b.config)
  unfolding run
  run-Ready b [] ordered ready = (b, refl, ready, refl)
  run-Ready b (arrives seq timestamp payload now ∷ later) ordered ready =
      let same = push_at-config b seq timestamp payload now in
      let (after, runs, kept, config) =
        run-Ready (push_at f b seq timestamp payload now).1 later
          (subst (λ c. IsOrdered c.mode) (sym same) ordered)
          (push_at-Ready f b seq timestamp payload now ready) in
      (after, runs, kept, config ∙ same)
  run-Ready b (plays now ∷ later) ordered ready =
      let (packet, played, pops, same) = pop_at-returns b now ordered in
      let (after, runs, kept, config) =
        run-Ready played later (subst (λ c. IsOrdered c.mode) (sym same) ordered)
          (pop_at-Ready f b now packet played ready pops) in
      (after, simp (run, pops) runs, kept, config ∙ same)

  -- From a new buffer whose adaptive bounds are in order, no sequence of arrivals and playouts
  -- panics in clamp, and after it the packets are sorted by extended number without repetition, none
  -- lies behind the playout position, and they are at most max_packets (one, when that is 0).
  pub new-run-Ready :
      (config : JitterConfig) (events : List Event)
      → IsOrdered config.mode
      → (after : JitterBuffer f.Value) × (run (new f config) events ≡ some after) × IsReady after
  unfolding new
  new-run-Ready config events ordered =
      let (after, runs, kept, same) = run-Ready (new f config) events ordered (tt, omega arith) in
      (after, runs, kept)
