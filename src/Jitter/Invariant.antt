-- ===== src/Jitter/Invariant.antt =====
-- What every operation of the jitter buffer keeps (src/jitter.rs): the packets are in order, none
-- lies behind the playout position, and they are at most `max_packets`, or one.
use rtp_engine.Base.{
  ℕ, suc, ◌+◌, ◌%◌, ◌≤◌, max, ◌≡◌, refl, ap, subst, List, [], ◌∷◌, Option, none, some, Option-cases,
  arith, length, inl, inr,
}
use rtp_engine.Base.Float.{F64}
use rtp_engine.Jitter.Slots.{
  first_key, SortedFrom, SortedFrom-weaken, insert-SortedFrom, length-insert, length-remove_le,
  remove-SortedFrom-suc, lookup-none-SortedFrom, first_key_from-SortedFrom, first_key-SortedFrom,
  remove_first-SortedFrom,
}
use rtp_engine.Jitter.State.{JitterBuffer, BufferedPacket, count}
use rtp_engine.Jitter.Arrival.{
  first_arrival, extend_seq, update_jitter, make_room, store, restart, place, push_at,
}
use rtp_engine.Jitter.Playout.{start, resync, take_or_conceal, advance, adapt_delay, play, pop_at}

abbrev pub position : Option ℕ → ℕ
position none = 0
position (some playout) = playout

-- On the parts of a buffer that matter.
abbrev pub Fits : ℕ → Option ℕ → List (ℕ × BufferedPacket) → Type 0
Fits capacity playout packets =
    SortedFrom (position playout) packets × (length packets ≤ max capacity 1)

first_key-none : {A : Type 0} (slots : List (ℕ × A)) → first_key slots ≡ none → length slots ≡ 0
first_key-none [] e = refl
first_key-none (slot ∷ rest) e = absurd (ground arith)

module _ {Float : Type 0} where
  abbrev pub IsReady : JitterBuffer Float → Type 0
  IsReady b = Fits b.config.max_packets b.playout_seq b.packets

  first_arrival-Ready :
      (b : JitterBuffer Float) (seq timestamp now : ℕ)
      → IsReady b
      → IsReady (first_arrival b seq timestamp now)
  unfolding first_arrival
  first_arrival-Ready b seq timestamp now r = ground arith

  pub make_room-Ready :
      (b : JitterBuffer Float)
      → IsReady b
      → SortedFrom (position b.playout_seq) (make_room b).packets
        × (suc (length (make_room b).packets) ≤ max b.config.max_packets 1)
  unfolding make_room
  make_room-Ready b r = elim (Option-cases (first_key b.packets)) [
    | inl e ↦ ground (arith, first_key-none b.packets e)
    | inr found ↦
        ground (arith, remove_first-SortedFrom (position b.playout_seq) found.0 b.packets r.0)
  ]

  make_room-playout : (b : JitterBuffer Float) → (make_room b).playout_seq ≡ b.playout_seq
  unfolding make_room
  make_room-playout b = ground arith

  make_room-config : (b : JitterBuffer Float) → (make_room b).config ≡ b.config
  unfolding make_room
  make_room-config b = ground arith

  store-Ready :
      (b : JitterBuffer Float) (extended_seq : ℕ) (packet : BufferedPacket)
      → IsReady b
      → position b.playout_seq ≤ extended_seq
      → IsReady (store b extended_seq packet)
  unfolding store
  store-Ready b extended_seq packet r ahead =
      let roomy = make_room-Ready b r in
      rw (make_room-playout b, make_room-config b)
        (
          insert-SortedFrom (position b.playout_seq) extended_seq packet (make_room b).packets ahead
              roomy.0,
          omega (arith, roomy.1, length-insert extended_seq packet (make_room b).packets),
        )

  pub place-Ready :
      (b : JitterBuffer Float) (extended_seq : ℕ) (packet : BufferedPacket)
      → IsReady b
      → IsReady (place b extended_seq packet).1
  unfolding place restart
  place-Ready b extended_seq packet r = ground (
    arith,
    store-Ready b extended_seq packet r,
    store-Ready (restart b packet.received_at) extended_seq packet,
  )

  extend_seq-Ready : (b : JitterBuffer Float) (seq : ℕ) → IsReady b → IsReady (extend_seq b seq).1
  unfolding extend_seq
  extend_seq-Ready b seq r = r

  start-Ready :
      (b : JitterBuffer Float) (now target : ℕ) (started : JitterBuffer Float)
      → IsReady b
      → start b now ≡ some (target, started)
      → IsReady started × (started.playout_seq ≡ some target)
  unfolding start
  start-Ready b now target started r e =
      ground (arith, first_key-SortedFrom (position b.playout_seq) target b.packets)

  resync-SortedFrom :
      (b : JitterBuffer Float) (target played : ℕ)
      → SortedFrom target b.packets
      → resync b target ≡ some played
      → SortedFrom played b.packets × (target ≤ played)
  unfolding resync
  resync-SortedFrom b target played s e =
      ground (arith, first_key_from-SortedFrom target played b.packets s)

  take_or_conceal-SortedFrom :
      (b : JitterBuffer Float) (target now : ℕ)
      → SortedFrom target b.packets
      → SortedFrom (suc target) (take_or_conceal b target now).1.packets
        × (length (take_or_conceal b target now).1.packets ≤ length b.packets)
  unfolding take_or_conceal
  take_or_conceal-SortedFrom b target now s = ground (
    arith,
    remove-SortedFrom-suc target b.packets s,
    length-remove_le target b.packets,
    lookup-none-SortedFrom target b.packets s,
  )

  take_or_conceal-config :
      (b : JitterBuffer Float) (target now : ℕ) → (take_or_conceal b target now).1.config ≡ b.config
  unfolding take_or_conceal
  take_or_conceal-config b target now = ground arith

module _ (f : F64) where
  update_jitter-Ready :
      (b : JitterBuffer f.Value) (timestamp now : ℕ)
      → IsReady b
      → IsReady (update_jitter f b timestamp now)
  unfolding update_jitter
  update_jitter-Ready b timestamp now r = ground arith

  pub push_at-Ready :
      (b : JitterBuffer f.Value) (seq timestamp : ℕ) (payload : List ℕ) (now : ℕ)
      → IsReady b
      → IsReady (push_at f b seq timestamp payload now).1
  unfolding push_at
  push_at-Ready b seq timestamp payload now r =
      let counted = record b {
        stats = record b.stats { packets_received = count b.stats.packets_received };
      } in
      let extended = (extend_seq (first_arrival counted seq timestamp now) seq).1 in
      place-Ready (update_jitter f extended timestamp now) _ _ (
        update_jitter-Ready extended timestamp now (
          extend_seq-Ready (first_arrival counted seq timestamp now) seq
            (first_arrival-Ready counted seq timestamp now r)))

  pub adapt_delay-Ready :
      (b adapted : JitterBuffer f.Value)
      → adapt_delay f b ≡ some adapted
      → (adapted.packets ≡ b.packets)
        × (adapted.playout_seq ≡ b.playout_seq)
        × (adapted.config ≡ b.config)
  unfolding adapt_delay
  adapt_delay-Ready b adapted e = ground arith

  pub play-advance :
      (b : JitterBuffer f.Value) (target now : ℕ) (packet : Option BufferedPacket)
      (after : JitterBuffer f.Value)
      → play f b target now ≡ some (packet, after)
      → (adapt_delay f (advance f (take_or_conceal b target now).1 target) ≡ some after)
        × (packet ≡ some (take_or_conceal b target now).0)
  unfolding play
  play-advance b target now packet after e = ground arith

  pub play-Ready :
      (b : JitterBuffer f.Value) (target now : ℕ) (packet : Option BufferedPacket)
      (after : JitterBuffer f.Value)
      → SortedFrom target b.packets
      → length b.packets ≤ max b.config.max_packets 1
      → play f b target now ≡ some (packet, after)
      → IsReady after × (after.playout_seq ≡ some ((target + 1) % 4294967296))
  unfolding advance
  play-Ready b target now packet after s room e =
      let taken = (take_or_conceal b target now).1 in
      let kept = take_or_conceal-SortedFrom b target now s in
      let same =
        adapt_delay-Ready (advance f taken target) after
          (play-advance b target now packet after e).0 in
      let fits : Fits taken.config.max_packets (some ((target + 1) % 4294967296)) taken.packets = (
        SortedFrom-weaken (suc target) ((target + 1) % 4294967296) taken.packets (omega arith)
            kept.0,
        let c = ap (λ c. c.max_packets) (take_or_conceal-config b target now) in
            omega (arith, kept.1, c, room),
      ) in
      (rw (same.0, same.1, same.2) fits, same.1)

  pub pop_at-Ready :
      (b : JitterBuffer f.Value) (now : ℕ) (packet : Option BufferedPacket)
      (after : JitterBuffer f.Value)
      → IsReady b
      → pop_at f b now ≡ some (packet, after)
      → IsReady after
  unfolding pop_at
  pop_at-Ready b now packet after r e = elim (Option-cases (start b now)) [
    | inl waiting ↦ ground arith
    | inr (found, starts) ↦
        let ready = start-Ready b now found.0 found.1 r starts in
        elim (Option-cases (resync found.1 found.0)) [
          | inl paused ↦ ground arith
          | inr (played, synced) ↦
              let s =
                resync-SortedFrom found.1 found.0 played
                  (subst (λ p. SortedFrom (position p) found.1.packets) ready.1 ready.0.0) synced in
              (play-Ready found.1 played now packet after s.0 ready.0.1 (ground arith)).0
        ]
  ]
