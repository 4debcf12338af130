-- ===== src/Stream/Trust.antt =====
-- Which sources a stream listens to, and what a dropped datagram changes (`ingest` of
-- src/stream.rs).
use rtp_engine.Base.{ℕ, ◌≡◌, Option, some, List, ◌⊎◌, arith}
use rtp_engine.Base.Float.{F64}
use rtp_engine.Error.{ok}
use rtp_engine.Rtp.Header
use rtp_engine.Srtp.Crypto.{Crypto}
use rtp_engine.Srtp.Context.{SrtpContext, unprotect_rtp}
use rtp_engine.Codec.Types.{CodecType}
use rtp_engine.Codec.Coder.{Coders}
use rtp_engine.Stream.State.{StreamCore, SrtpPair, Dropped, malformed, other_payload, Core}
use rtp_engine.Stream.Arrival.{start_clock}

module _ {Float Encoder Decoder : Type 0} where
  pub start_clock-keeps :
      (core : StreamCore Float Encoder Decoder) (now : ℕ)
      → ((start_clock core now).config ≡ core.config)
        × ((start_clock core now).srtp ≡ core.srtp)
        × ((start_clock core now).stats ≡ core.stats)
  unfolding start_clock
  start_clock-keeps core now = ground arith

module _ (f : F64) (k : Coders) where
  -- Every decoder of the codec can be made.
  abbrev pub CanDecode : CodecType → Type 0
  CanDecode codec = (decoder : k.Decoder) × (k.create_decoder codec ≡ ok decoder)

  module _ (c : Crypto) where
    -- What is left of a core when a datagram is dropped: all but the context that decrypts.
    abbrev pub with_srtp : Core f k → Core f k → Core f k
    with_srtp core after = record core { srtp = after.srtp }

    -- The contexts stay, but that the one that decrypts is the one that unprotect_rtp leaves where
    -- the datagram authenticated and was then refused.
    abbrev Contexts : Option SrtpPair → Option SrtpPair → List ℕ → Dropped → Type 0
    Contexts before after datagram reason =
        (after ≡ before)
        ⊎ ((pair : SrtpPair) × (inbound : SrtpContext) × (clear : List ℕ) × (before ≡ some pair)
            × (unprotect_rtp c pair.inbound datagram ≡ (inbound, ok clear))
            × (after ≡ some (record pair { inbound = inbound }))
            × ((reason ≡ malformed) ⊎ (reason ≡ other_payload)))

    abbrev pub KeysKept : Core f k → Core f k → List ℕ → Dropped → Type 0
    KeysKept core after datagram reason = Contexts core.srtp after.srtp datagram reason
