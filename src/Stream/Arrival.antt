-- ===== src/Stream/Arrival.antt =====
-- A datagram that arrives: `admit` and `ingest` of src/stream.rs.
use rtp_engine.Base.{
  ℕ, ◌+◌, ◌-◌, ◌/◌, ◌%◌, Bool, true, false, not, ◌&&◌, ◌||◌, Option, none, some, List, length,
  slice, byte_at, ltb, leb, ◌==◌, if◌then◌else◌,
}
use rtp_engine.Base.Float.{F64}
use rtp_engine.Base.Net.{SocketAddr, same_addr, same_ip}
use rtp_engine.Error.{ok, err, srtp_replay}
use rtp_engine.Rtp.Header
use rtp_engine.Rtp.Header.{RtpHeader, header_length}
use rtp_engine.Srtp.Crypto.{Crypto}
use rtp_engine.Srtp.Context.{unprotect_rtp}
use rtp_engine.Jitter.State.{JitterBuffer, count}
use rtp_engine.Jitter.State
use rtp_engine.Jitter.Arrival.{push_at}
use rtp_engine.Codec.Coder.{Coders}
use rtp_engine.Stream.State.{
  StreamCore, StreamConfig, Dropped, malformed, unauthenticated, replayed, unexpected_source,
  other_payload, Verdict, accepted, dropped, dtmf_digit, Core,
}

-- Whether the source may be listened to.
unfoldable pub is_expected : Option SocketAddr → Bool → SocketAddr → SocketAddr → Bool
is_expected (some latched) keyed remote from = same_addr latched from
is_expected none keyed remote from = keyed || same_ip from.ip remote.ip

-- Where the payload ends in front of the padding.
unfoldable pub payload_end : RtpHeader → List ℕ → Option ℕ
payload_end header packet =
    let start = header_length header in
    let end = length packet in
    let pad = byte_at packet (end - 1) in
    if not header.padding
    then some end
    else if end == 0
    then none
    else if pad == 0 || ltb (end - start) pad
    then none
    else some (end - pad)

-- `packet.get(start..end)`
unfoldable pub payload_of : RtpHeader → List ℕ → Option (List ℕ)
unfolding payload_end
payload_of header packet = elim (payload_end header packet) [
  | none ↦ none
  | some end ↦
      if leb (header_length header) end && leb end (length packet)
      then some (slice (header_length header) end packet)
      else none
]

-- `header.timestamp.wrapping_sub(last) as i32 <= 0`
unfoldable pub is_not_newer : ℕ → ℕ → Bool
is_not_newer timestamp last =
    let ahead = (timestamp + 4294967296 - last) % 4294967296 in ahead == 0 || leb 2147483648 ahead

unfoldable pub is_dtmf : StreamConfig → ℕ → Bool
is_dtmf config pt = elim config.dtmf_payload_type [ none ↦ false | some dtmf_pt ↦ pt == dtmf_pt ]

abbrev pub is_some {ℓ} : {A : Type ℓ} → Option A → Bool
is_some none = false
is_some (some a) = true

module _ {Float Encoder Decoder : Type 0} where
  -- A telephone-event packet, whose payload has been found long enough.
  unfoldable pub take_event :
      StreamCore Float Encoder Decoder → ℕ → ℕ → StreamCore Float Encoder Decoder × Verdict
  unfolding is_not_newer
  take_event core timestamp event =
      if elim core.last_dtmf_timestamp [ none ↦ false | some last ↦ is_not_newer timestamp last ]
      then (core, accepted none)
      else elim (dtmf_digit event) [
        | none ↦ (core, accepted none)
        | some digit ↦ (
          record core { last_dtmf_timestamp = some timestamp },
          accepted (some (record { digit = digit; event = event })),
        )
      ]

  -- The packet counted and its source remembered.
  unfoldable pub note_packet :
      StreamCore Float Encoder Decoder → ℕ → ℕ → ℕ → StreamCore Float Encoder Decoder
  note_packet core ssrc size now = record core {
    remote_ssrc = some ssrc;
    last_packet = some now;
    stats = record core.stats {
      packets_received = count core.stats.packets_received;
      bytes_received = (core.stats.bytes_received + size) % 18446744073709551616;
    };
  }

  unfoldable pub latch :
      StreamCore Float Encoder Decoder → SocketAddr → StreamCore Float Encoder Decoder
  latch core from = elim core.stats.latched [
    | none ↦ record core { stats = record core.stats { latched = some from } }
    | some latched ↦ core
  ]

  -- One more datagram dropped for that reason.
  unfoldable pub count_drop :
      StreamCore Float Encoder Decoder → Dropped → StreamCore Float Encoder Decoder
  count_drop core malformed = record core {
    stats = record core.stats { dropped_malformed = count core.stats.dropped_malformed };
  }
  count_drop core unauthenticated = record core {
    stats = record core.stats {
      dropped_unauthenticated = count core.stats.dropped_unauthenticated;
    };
  }
  count_drop core replayed = record core {
    stats = record core.stats { dropped_replayed = count core.stats.dropped_replayed };
  }
  count_drop core unexpected_source = record core {
    stats = record core.stats { dropped_source = count core.stats.dropped_source };
  }
  count_drop core other_payload = record core {
    stats = record core.stats { dropped_payload = count core.stats.dropped_payload };
  }

  -- The match on the result in `ingest`.
  unfoldable pub tally :
      StreamCore Float Encoder Decoder × Verdict → StreamCore Float Encoder Decoder × Verdict
  unfolding count_drop
  tally (core, accepted event) = (core, accepted event)
  tally (core, dropped reason) = (count_drop core reason, dropped reason)

  -- `self.started.get_or_insert(now)`
  unfoldable pub start_clock :
      StreamCore Float Encoder Decoder → ℕ → StreamCore Float Encoder Decoder
  start_clock core now = elim core.started [
    | none ↦ record core { started = some now }
    | some start ↦ core
  ]

module _ (f : F64) (k : Coders) where
  -- The reset when the remote SSRC changed, and whether there is a decoder.
  unfoldable pub change_source : Core f k → ℕ → Core f k × Bool
  change_source core ssrc =
      if elim core.remote_ssrc [ none ↦ false | some old ↦ not (old == ssrc) ]
      then (let emptied = record core { jitter = State.reset f core.jitter } in
          elim (k.create_decoder core.config.codec) [
            | err e ↦ (emptied, false)
            | ok decoder ↦ (
              record emptied {
                decoder = decoder;
                last_dtmf_timestamp = none;
                playing = false;
                stats = record core.stats { ssrc_changes = count core.stats.ssrc_changes };
              },
              true,
            )
          ])
      else (core, true)

  -- What is done with a packet that is trusted.
  unfoldable pub accept : Core f k → RtpHeader → List ℕ → ℕ → SocketAddr → ℕ → Core f k × Verdict
  unfolding latch change_source note_packet take_event is_dtmf
  accept core header payload size from now =
      let (changed, ready) = change_source (latch core from) header.ssrc in
      let noted = note_packet changed header.ssrc size now in
      if not ready
      then (changed, dropped malformed)
      else if is_dtmf core.config header.payload_type
      then take_event noted header.timestamp (byte_at payload 0)
      else (
        record noted {
          jitter = (push_at f noted.jitter header.sequence header.timestamp payload now).1;
        },
        accepted none,
      )

  -- `admit` from the parsing of the clear packet on.
  unfoldable pub admit_clear : Core f k → List ℕ → ℕ → SocketAddr → ℕ → Core f k × Verdict
  unfolding payload_of is_dtmf accept
  admit_clear core packet size from now = elim (Header.parse packet) [
    | none ↦ (core, dropped malformed)
    | some header ↦ elim (payload_of header packet) [
      | none ↦ (core, dropped malformed)
      | some payload ↦
          let is_event = is_dtmf core.config header.payload_type in
          if not (header.payload_type == core.config.payload_type) && not is_event
          then (core, dropped other_payload)
          else if is_event && ltb (length payload) 4
          then (core, dropped malformed)
          else accept core header payload size from now
    ]
  ]

  module _ (c : Crypto) where
    -- `admit` from the decryption on.
    unfoldable pub admit_opened : Core f k → List ℕ → SocketAddr → ℕ → Core f k × Verdict
    unfolding admit_clear
    admit_opened core datagram from now = elim core.srtp [
      | none ↦ admit_clear core datagram (length datagram) from now
      | some pair ↦
          let (inbound, opened) = unprotect_rtp c pair.inbound datagram in
          let moved = record core { srtp = some (record pair { inbound = inbound }) } in
          elim opened [
            | err srtp_replay ↦ (moved, dropped replayed)
            | err e ↦ (moved, dropped unauthenticated)
            | ok clear ↦ admit_clear moved clear (length datagram) from now
          ]
    ]

    unfoldable pub admit : Core f k → List ℕ → SocketAddr → ℕ → Core f k × Verdict
    unfolding is_expected admit_opened
    admit core datagram from now =
        let pt = byte_at datagram 1 % 128 in
        if ltb (length datagram) 12 || not (byte_at datagram 0 / 64 == 2)
        then (core, dropped malformed)
        else if leb 72 pt && leb pt 76
        then (core, dropped other_payload)
        else if not (is_expected core.stats.latched (is_some core.srtp) core.config.remote from)
        then (core, dropped unexpected_source)
        else admit_opened core datagram from now

    unfoldable pub ingest : Core f k → List ℕ → SocketAddr → ℕ → Core f k × Verdict
    ingest core datagram from now = tally (admit (start_clock core now) datagram from now)
