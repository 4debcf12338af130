-- ===== src/Session/Receive/Transit.antt =====
-- What src/session.rs measures as jitter of a stream that arrives at an even pace.
use rtp_engine.Base.{ℕ, zero, suc, ◌+◌, ◌≡◌, refl, ap, ◌∙◌, some, arith}
use rtp_engine.Base.Int.{◌-ℤ◌}
use rtp_engine.Base.Float.{F64}
use rtp_engine.Codec.Types.{
  CodecType, pcmu, pcma, g729, g722, opus, clock_rate, rtp_ticks_per_packet,
}
use rtp_engine.Codec.Coder.{Coders}
use rtp_engine.Rtp.Stats.{RtpCounters, update_jitter}
use rtp_engine.Session.Receive.{Receiver, measure, transit_of, unsigned_abs}

-- The microseconds by which a packet is taken to be off, that is sent and arrives 20 ms after the
-- one before it.
abbrev pub skew : CodecType → ℕ
skew opus = 800
skew codec = 0

paced-skew :
    (codec : CodecType) (arrival timestamp : ℕ)
    → unsigned_abs (
        transit_of codec (arrival + 20000) (timestamp + rtp_ticks_per_packet codec)
        -ℤ transit_of codec arrival timestamp)
      ≡ skew codec
unfolding ◌-ℤ◌ clock_rate rtp_ticks_per_packet
paced-skew pcmu arrival timestamp = ground arith
paced-skew pcma arrival timestamp = ground arith
paced-skew g729 arrival timestamp = ground arith
paced-skew g722 arrival timestamp = ground arith
paced-skew opus arrival timestamp = ground arith

module _ (f : F64) where
  -- The jitter, smoothed over `n` packets that are `off` microseconds off each.
  unfoldable pub smoothed : ℕ → ℕ → RtpCounters → RtpCounters
  smoothed zero off counters = counters
  smoothed (suc n) off counters = smoothed n off (update_jitter f counters off)

  module _ (k : Coders) (codec : CodecType) where
    -- A stream of `n` packets from a timestamp on, one each 20 ms from `arrival` on.
    unfoldable pub paced : Receiver f.Value k.Decoder → ℕ → ℕ → ℕ → Receiver f.Value k.Decoder
    paced receiver zero arrival timestamp = receiver
    paced receiver (suc n) arrival timestamp =
        paced (measure f k codec receiver arrival (some timestamp)) n (arrival + 20000)
          (timestamp + rtp_ticks_per_packet codec)

    measure-paced :
        (receiver : Receiver f.Value k.Decoder) (arrival timestamp : ℕ)
        → receiver.last_transit ≡ some (transit_of codec arrival timestamp)
        → (measure f k codec receiver
            (arrival + 20000)
            (some (timestamp + rtp_ticks_per_packet codec))).counters
          ≡ update_jitter f receiver.counters (skew codec)
    unfolding measure
    measure-paced receiver arrival timestamp before =
        simp (before, paced-skew codec arrival timestamp) refl

    -- A packet has been measured; those after it are each sent a packet's ticks after the one
    -- before, with timestamps that do not wrap, and arrive exactly 20 ms apart. The jitter is then
    -- updated for each with no deviation, but for Opus, where it is with 800 microseconds.
    pub paced-smoothed :
        (n : ℕ) (receiver : Receiver f.Value k.Decoder) (arrival timestamp : ℕ)
        → receiver.last_transit ≡ some (transit_of codec arrival timestamp)
        → (paced receiver n (arrival + 20000) (timestamp + rtp_ticks_per_packet codec)).counters
          ≡ smoothed n (skew codec) receiver.counters
    unfolding paced smoothed measure
    paced-smoothed zero receiver arrival timestamp before = refl
    paced-smoothed (suc n) receiver arrival timestamp before =
        paced-smoothed n
          (measure f k codec receiver (arrival + 20000)
            (some (timestamp + rtp_ticks_per_packet codec)))
          (arrival + 20000) (timestamp + rtp_ticks_per_packet codec) refl
        ∙ ap (smoothed n (skew codec)) (measure-paced receiver arrival timestamp before)
