-- ===== src/Stream/Latch.antt =====
-- From whom a stream takes packets, and where it sends (`destination` of src/stream.rs), over any
-- datagrams.
use rtp_engine.Base.{
  ℕ, ◌≡◌, refl, ap, subst, ◌∙◌, Bool, true, false, Option, none, some, List, [], ◌∷◌, ◌⊎◌, inl, inr,
  arith, Option-cases, length,
}
use rtp_engine.Base.Float.{F64}
use rtp_engine.Base.Net.{SocketAddr, same_ip_sound, same_addr_sound}
use rtp_engine.Error.{Result-cases}
use rtp_engine.Rtp.Header
use rtp_engine.Rtp.Header.{RtpHeader}
use rtp_engine.Srtp.Crypto.{Crypto}
use rtp_engine.Srtp.Context.{unprotect_rtp}
use rtp_engine.Codec.Coder.{Coders}
use rtp_engine.Stream.State.{
  StreamCore, Verdict, accepted, dropped, malformed, unauthenticated, replayed, unexpected_source,
  other_payload, Core, destination,
}
use rtp_engine.Stream.Arrival.{
  is_expected, latch, change_source, note_packet, take_event, payload_of, accept, admit_clear,
  admit_opened, admit, ingest, tally, start_clock, count_drop, is_some,
}
use rtp_engine.Stream.Trust.{start_clock-keeps}

expected_host :
    (latched : Option SocketAddr) (remote from : SocketAddr)
    → is_expected latched false remote from ≡ true
    → (latched ≡ none) ⊎ ((known : SocketAddr) × (latched ≡ some known) × (known.ip ≡ remote.ip))
    → from.ip ≡ remote.ip
unfolding is_expected
expected_host none remote from e on_host = same_ip_sound from.ip remote.ip e
expected_host (some latched) remote from e on_host = ground (arith, same_addr_sound latched from e)

expected_known :
    (latched : Option SocketAddr) (known from : SocketAddr) (keyed : Bool) (remote : SocketAddr)
    → latched ≡ some known
    → is_expected latched keyed remote from ≡ true
    → from ≡ known
unfolding is_expected
expected_known none known from keyed remote e expected = absurd (ground arith)
expected_known (some latched) known from keyed remote e expected =
    ground (arith, same_addr_sound latched from expected)

module _ {Float Encoder Decoder : Type 0} where
  tally-keeps :
      (result : StreamCore Float Encoder Decoder × Verdict)
      → ((tally result).0.config ≡ result.0.config)
        × ((tally result).0.srtp ≡ result.0.srtp)
        × ((tally result).0.stats.latched ≡ result.0.stats.latched)
  unfolding tally count_drop
  tally-keeps (core, accepted event) = (refl, refl, refl)
  tally-keeps (core, dropped malformed) = (refl, refl, refl)
  tally-keeps (core, dropped unauthenticated) = (refl, refl, refl)
  tally-keeps (core, dropped replayed) = (refl, refl, refl)
  tally-keeps (core, dropped unexpected_source) = (refl, refl, refl)
  tally-keeps (core, dropped other_payload) = (refl, refl, refl)

module _ (f : F64) (k : Coders) where
  -- What a datagram may change of the configuration, the keys and the learned address.
  abbrev Settles : Core f k → Core f k → SocketAddr → Type 0
  Settles core after from =
      (after.config ≡ core.config)
      × (after.srtp ≡ core.srtp)
      × ((after.stats.latched ≡ core.stats.latched) ⊎ (after.stats.latched ≡ some from))

  accept-Settles :
      (core : Core f k) (header : RtpHeader) (payload : List ℕ) (size : ℕ) (from : SocketAddr)
      (now : ℕ)
      → Settles core (accept f k core header payload size from now).0 from
  unfolding accept latch change_source note_packet take_event
  accept-Settles core header payload size from now = ground arith

  admit_clear-Settles :
      (core : Core f k) (packet : List ℕ) (size : ℕ) (from : SocketAddr) (now : ℕ)
      → Settles core (admit_clear f k core packet size from now).0 from
  unfolding admit_clear
  admit_clear-Settles core packet size from now = elim (Option-cases (Header.parse packet)) [
    | inl none_parsed ↦ ground arith
    | inr (header, parsed) ↦ elim (Option-cases (payload_of header packet)) [
      | inl no_payload ↦ ground arith
      | inr (payload, found) ↦ ground (arith, accept-Settles core header payload size from now)
    ]
  ]

  module _ (c : Crypto) where
    -- What a datagram may change when the context that decrypts may move.
    abbrev Moves : Core f k → Core f k → SocketAddr → Type 0
    Moves core after from =
        (after.config ≡ core.config)
        × (is_some after.srtp ≡ is_some core.srtp)
        × ((after.stats.latched ≡ core.stats.latched) ⊎ (after.stats.latched ≡ some from))

    admit_opened-Moves :
        (core : Core f k) (datagram : List ℕ) (from : SocketAddr) (now : ℕ)
        → Moves core (admit_opened f k c core datagram from now).0 from
    unfolding admit_opened
    admit_opened-Moves core datagram from now = elim (Option-cases core.srtp) [
      | inl plain ↦ ground (arith, admit_clear-Settles core datagram (length datagram) from now)
      | inr (pair, keyed) ↦
          let inbound = (unprotect_rtp c pair.inbound datagram).0 in
          let moved = record core { srtp = some (record pair { inbound = inbound }) } in
          elim (Result-cases (unprotect_rtp c pair.inbound datagram).1) [
            | inl (clear, opened) ↦
                ground (arith, admit_clear-Settles moved clear (length datagram) from now)
            | inr (cause, refused) ↦ ground arith
          ]
    ]

    -- The learned address changes only to that of an expected source.
    abbrev Learns : Core f k → Core f k → SocketAddr → Type 0
    Learns core after from =
        (after.config ≡ core.config)
        × (is_some after.srtp ≡ is_some core.srtp)
        × ((after.stats.latched ≡ core.stats.latched)
            ⊎ ((after.stats.latched ≡ some from)
                × (is_expected core.stats.latched (is_some core.srtp) core.config.remote from
                    ≡ true)))

    admit-Learns :
        (core : Core f k) (datagram : List ℕ) (from : SocketAddr) (now : ℕ)
        → Learns core (admit f k c core datagram from now).0 from
    unfolding admit
    admit-Learns core datagram from now = ground (arith, admit_opened-Moves core datagram from now)

    ingest-Learns :
        (core : Core f k) (datagram : List ℕ) (from : SocketAddr) (now : ℕ)
        → Learns core (ingest f k c core datagram from now).0 from
    unfolding ingest
    ingest-Learns core datagram from now =
        let started = start_clock core now in
        let result = admit f k c started datagram from now in
        let (same_config, same_srtp, same_stats) = start_clock-keeps core now in
        let (config, srtp, latched) = tally-keeps result in
        let (admit_config, admit_srtp, learned) = admit-Learns started datagram from now in
        ground arith

    -- Datagrams with where they came from and when they arrived, one after the other.
    unfoldable pub ingest_all : Core f k → List (List ℕ × SocketAddr × ℕ) → Core f k
    ingest_all core [] = core
    ingest_all core ((datagram, from, now) ∷ later) =
        ingest_all (ingest f k c core datagram from now).0 later

    -- Without SRTP, and with no address learned yet or one of the remote host.
    abbrev OnHost : Core f k → SocketAddr → Type 0
    OnHost core remote =
        (core.config.remote ≡ remote)
        × (is_some core.srtp ≡ false)
        × ((core.stats.latched ≡ none)
            ⊎ ((known : SocketAddr) × (core.stats.latched ≡ some known) × (known.ip ≡ remote.ip)))

    ingest-OnHost :
        (core : Core f k) (remote : SocketAddr) (datagram : List ℕ) (from : SocketAddr) (now : ℕ)
        → OnHost core remote
        → OnHost (ingest f k c core datagram from now).0 remote
    ingest-OnHost core remote datagram from now (named, plain, on_host) =
        let (config, srtp, learned) = ingest-Learns core datagram from now in
        let host : is_expected core.stats.latched (is_some core.srtp) core.config.remote from ≡ true
            → from.ip ≡ remote.ip =
          λ e.
            expected_host core.stats.latched remote from
              (subst (λ r. is_expected core.stats.latched false r from ≡ true) named
                (subst (λ b. is_expected core.stats.latched b core.config.remote from ≡ true) plain
                  e))
              on_host in
        (
          ap (λ g. g.remote) config ∙ named,
          srtp ∙ plain,
          elim learned [
            | inl same ↦ elim on_host [
              | inl unknown ↦ inl (same ∙ unknown)
              | inr (known, e, h) ↦ inr (known, same ∙ e, h)
            ]
            | inr (latched, expected) ↦ inr (from, latched, host expected)
          ],
        )

    ingest_all-OnHost :
        (core : Core f k) (remote : SocketAddr) (arriving : List (List ℕ × SocketAddr × ℕ))
        → OnHost core remote
        → OnHost (ingest_all core arriving) remote
    unfolding ingest_all
    ingest_all-OnHost core remote [] on_host = on_host
    ingest_all-OnHost core remote ((datagram, from, now) ∷ later) on_host =
        ingest_all-OnHost (ingest f k c core datagram from now).0 remote later
          (ingest-OnHost core remote datagram from now on_host)

    -- Without SRTP, a stream that has learned no address yet sends to the host that the SDP named,
    -- whatever datagrams arrive, from wherever.
    pub ingest_all-own_host :
        (core : Core f k) (arriving : List (List ℕ × SocketAddr × ℕ))
        → core.srtp ≡ none
        → core.stats.latched ≡ none
        → (destination f k (ingest_all core arriving)).ip ≡ core.config.remote.ip
    unfolding destination
    ingest_all-own_host core arriving plain unknown =
        let (named, keyless, on_host) =
          ingest_all-OnHost core core.config.remote arriving
            (refl, ap is_some plain, inl unknown) in
        ground arith

    ingest-latched :
        (core : Core f k) (datagram : List ℕ) (from known : SocketAddr) (now : ℕ)
        → core.stats.latched ≡ some known
        → (ingest f k c core datagram from now).0.stats.latched ≡ some known
    ingest-latched core datagram from known now e =
        let (config, srtp, learned) = ingest-Learns core datagram from now in
        elim learned [
          | inl same ↦ same ∙ e
          | inr (latched, expected) ↦
              latched
              ∙ ap some (
                  expected_known core.stats.latched known from (is_some core.srtp)
                    core.config.remote e expected)
        ]

    -- Once a stream has learned an address, with SRTP or without, it sends there whatever datagrams
    -- arrive.
    pub ingest_all-latched :
        (core : Core f k) (arriving : List (List ℕ × SocketAddr × ℕ)) (known : SocketAddr)
        → core.stats.latched ≡ some known
        → destination f k (ingest_all core arriving) ≡ known
    unfolding ingest_all destination
    ingest_all-latched core [] known e = ground arith
    ingest_all-latched core ((datagram, from, now) ∷ later) known e =
        ingest_all-latched (ingest f k c core datagram from now).0 later known
          (ingest-latched core datagram from known now e)
