-- ===== src/Jitter/Loss.antt =====
-- What `pop_at` of src/jitter.rs plays for a number that is buffered, and for one that is missing.
use rtp_engine.Base.{
  ℕ, ◌+◌, ◌-◌, ◌%◌, ◌≤◌, ◌<◌, ◌≡◌, ap, subst, sym, ◌∙◌, true, [], none, some, arith,
}
use rtp_engine.Base.Float.{F64}
use rtp_engine.Jitter.Slots.{lookup, first_key_from, remove}
use rtp_engine.Jitter.State.{JitterBuffer, BufferedPacket, discontinuity}
use rtp_engine.Jitter.Playout.{
  start, resync, take_or_conceal, estimate_timestamp, advance, adapt_delay, play, pop_at,
}
use rtp_engine.Jitter.Invariant.{adapt_delay-Ready}
use rtp_engine.Jitter.Delay.{IsOrdered, adapt_delay-returns}

module _ {Float : Type 0} where
  estimate_timestamp-playout :
      (b : JitterBuffer Float) (target base : ℕ)
      → b.playout_seq ≡ some target
      → b.base_timestamp ≡ some base
      → base < 4294967296
      → estimate_timestamp b target ≡ base
  unfolding estimate_timestamp
  estimate_timestamp-playout b target base at_target at_base small =
      let offset : (target + 4294967296 - target) % 4294967296 ≡ 0 = omega arith in
      simp (estimate_timestamp, at_target, at_base, offset) (omega arith)

  resync-missing :
      (b : JitterBuffer Float) (target next : ℕ)
      → lookup target b.packets ≡ none
      → first_key_from target b.packets ≡ some next
      → next ≤ target + discontinuity b
      → resync b target ≡ some target
  unfolding resync
  resync-missing b target next missing later near = ground arith

  take_or_conceal-config :
      (b : JitterBuffer Float) (target now : ℕ) → (take_or_conceal b target now).1.config ≡ b.config
  unfolding take_or_conceal
  take_or_conceal-config b target now = ground arith

module _ (f : F64) where
  played :
      (b : JitterBuffer f.Value) (target now : ℕ)
      → IsOrdered b.config.mode
      → b.playout_seq ≡ some target
      → resync b target ≡ some target
      → (after : JitterBuffer f.Value) × (pop_at f b now
          ≡ some (some (take_or_conceal b target now).0, after))
        × (after.packets ≡ (take_or_conceal b target now).1.packets)
        × (after.playout_seq ≡ some ((target + 1) % 4294967296))
  unfolding pop_at start play advance
  played b target now ordered at_target synced =
      let taken = (take_or_conceal b target now).1 in
      let (after, runs, within) =
        adapt_delay-returns f (advance f taken target)
          (subst (λ c. IsOrdered c.mode) (sym (take_or_conceal-config b target now)) ordered) in
      let (same_packets, same_playout, same_config) =
        adapt_delay-Ready f (advance f taken target) after runs in
      (after, pops after runs, same_packets, same_playout)
    where
      pops :
          (after : JitterBuffer f.Value)
          → adapt_delay f (advance f (take_or_conceal b target now).1 target) ≡ some after
          → pop_at f b now ≡ some (some (take_or_conceal b target now).0, after)
      pops after runs =
          let starts : start b now ≡ some (target, b) = simp (start, at_target) in
          simp (pop_at, starts, synced, play, runs)

  -- While playout stands at a number that is missing, with the next one buffered no further ahead
  -- than max_packets (one, when that is 0), pop_at gives a synthesized, empty packet of that number,
  -- and playout moves on by one; its timestamp is the one of the first packet received, whatever
  -- number is concealed.
  pub pop_at-missing :
      (b : JitterBuffer f.Value) (target next base now : ℕ)
      → IsOrdered b.config.mode
      → b.playout_seq ≡ some target
      → lookup target b.packets ≡ none
      → first_key_from target b.packets ≡ some next
      → next ≤ target + discontinuity b
      → b.base_timestamp ≡ some base
      → base < 4294967296
      → (after : JitterBuffer f.Value) × (pop_at f b now
          ≡ some (
            some (record {
              seq = target % 65536;
              timestamp = base;
              payload = [];
              received_at = now;
              synthesized = true;
            }),
            after,
          ))
        × (after.packets ≡ b.packets)
        × (after.playout_seq ≡ some ((target + 1) % 4294967296))
  unfolding take_or_conceal
  pop_at-missing b target next base now ordered at_target missing later near at_base small =
      let (after, pops, kept, moved) =
        played b target now ordered at_target (resync-missing b target next missing later near) in
      (
        after,
        pops
            ∙ ap (λ p. some (some p, after))
                (simp (
                  take_or_conceal,
                  missing,
                  estimate_timestamp-playout b target base at_target at_base small,
                )),
        kept ∙ simp (take_or_conceal, missing),
        moved,
      )

  -- While playout stands at a buffered number, pop_at gives that packet, takes it out of the buffer,
  -- and playout moves on by one.
  pub pop_at-buffered :
      (b : JitterBuffer f.Value) (target now : ℕ) (packet : BufferedPacket)
      → IsOrdered b.config.mode
      → b.playout_seq ≡ some target
      → lookup target b.packets ≡ some packet
      → (after : JitterBuffer f.Value) × (pop_at f b now ≡ some (some packet, after))
        × (after.packets ≡ remove target b.packets)
        × (after.playout_seq ≡ some ((target + 1) % 4294967296))
  unfolding take_or_conceal resync
  pop_at-buffered b target now packet ordered at_target found =
      let (after, pops, kept, moved) =
        played b target now ordered at_target (simp (resync, found)) in
      (
        after,
        pops ∙ ap (λ p. some (some p, after)) (simp (take_or_conceal, found)),
        kept ∙ simp (take_or_conceal, found),
        moved,
      )
