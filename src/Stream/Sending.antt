-- ===== src/Stream/Sending.antt =====
-- Sending: `queue_dtmf`, `packetize`, `finish`, `dtmf_timestamp` and `sender_report` of src/stream.rs.
-- The wall clock of a sender report is an argument.
use rtp_engine.Base.{
  ℕ, zero, suc, ◌+◌, ◌*◌, ◌/◌, ◌%◌, min, max, true, false, not, ◌||◌, none, some, List, [], ◌∷◌,
  ◌++◌, length, leb, ◌==◌, if◌then◌else◌, u16_to_be,
}
use rtp_engine.Base.Float.{F64}
use rtp_engine.Error.{Result, ok, err, invalid_parameter}
use rtp_engine.Codec.Types.{
  clock_rate, pcm_samples_per_packet, rtp_ticks_per_packet, packet_duration_ms,
}
use rtp_engine.Codec.G711.{Sample}
use rtp_engine.Codec.Coder.{Coders}
use rtp_engine.Rtp.Header
use rtp_engine.Rtp.Header.{RtpHeader, with_marker, to_bytes}
use rtp_engine.Rtp.Rtcp.{UnixTime, build_rtcp_sr}
use rtp_engine.Srtp.Crypto.{Crypto}
use rtp_engine.Srtp.Context.{protect_rtp, protect_rtcp}
use rtp_engine.Jitter.State.{count}
use rtp_engine.Stream.State.{
  StreamCore, StreamConfig, DtmfSend, end_bit, dtmf_volume, dtmf_event_code, Core,
}

module _ {Float Encoder Decoder : Type 0} where
  unfoldable pub queue_dtmf :
      StreamCore Float Encoder Decoder → ℕ → StreamCore Float Encoder Decoder × Result (Unit {0})
  queue_dtmf core digit = elim (dtmf_event_code digit) [
    | none ↦ (core, err invalid_parameter)
    | some event ↦ elim core.config.dtmf_payload_type [
      | none ↦ (core, err invalid_parameter)
      | some pt ↦ (record core { dtmf = core.dtmf ++ (event ∷ []) }, ok tt)
    ]
  ]

  unfoldable pub dtmf_timestamp : StreamCore Float Encoder Decoder → ℕ
  dtmf_timestamp core =
      let audio = clock_rate core.config.codec in
      let event = core.config.dtmf_clock_rate in
      if audio == event || audio == 0
      then core.timestamp
      else core.timestamp * event / audio % 4294967296

  -- A packet that leaves is counted.
  unfoldable pub count_sent :
      StreamCore Float Encoder Decoder → List ℕ → StreamCore Float Encoder Decoder
  count_sent core packet = record core {
    stats = record core.stats {
      packets_sent = count core.stats.packets_sent;
      bytes_sent = (core.stats.bytes_sent + length packet) % 18446744073709551616;
    };
  }

  -- The next digit is taken from the queue when none is being sent.
  unfoldable pub begin_digit : StreamCore Float Encoder Decoder → StreamCore Float Encoder Decoder
  unfolding dtmf_timestamp
  begin_digit core = elim core.dtmf_sending [
    | some send ↦ core
    | none ↦ elim core.dtmf [
      | [] ↦ core
      | event ∷ rest ↦ record core {
        dtmf = rest;
        dtmf_sending = some (record { event = event; timestamp = dtmf_timestamp core; sent = 0 });
      }
    ]
  ]

-- The payload of the telephone-event packet `send`, whose count is already one higher.
unfoldable pub event_payload : StreamConfig → DtmfSend → List ℕ
event_payload config send =
    let per_packet = config.dtmf_clock_rate * packet_duration_ms % 4294967296 / 1000 in
    let duration = min (send.sent * per_packet % 4294967296) 65535 in
    let end = leb (max config.dtmf_packets 1) send.sent in
    let flags = if end then end_bit + dtmf_volume else dtmf_volume in
    send.event ∷ flags ∷ u16_to_be duration

module _ (f : F64) (k : Coders) (c : Crypto) where
  unfoldable pub finish : Core f k → RtpHeader → List ℕ → Core f k × Result (List ℕ)
  unfolding count_sent
  finish core header payload =
      let packet = to_bytes header ++ payload in
      let next = record core { seq = (core.seq + 1) % 65536 } in
      elim core.srtp [
        | none ↦ (count_sent next packet, ok packet)
        | some pair ↦
            let (outbound, protected) = protect_rtp c pair.outbound packet in
            let moved = record next { srtp = some (record pair { outbound = outbound }) } in
            elim protected [
              | err e ↦ (moved, err e)
              | ok sealed ↦ (count_sent moved sealed, ok sealed)
            ]
      ]

  -- The `for` loop over the packets of one digit: the rounds left.
  unfoldable pub send_events :
      ℕ → Core f k → ℕ → DtmfSend → List ℕ → Core f k × Result (List (List ℕ))
  unfolding finish
  send_events zero core pt send payload = (core, ok [])
  send_events (suc n) core pt send payload =
      let plain = Header.new pt core.seq send.timestamp core.ssrc in
      let header = if send.sent == 1 then with_marker plain else plain in
      let (finished, first) = finish core header payload in
      let (after, others) = send_events n finished pt send payload in
      elim first [
        | err e ↦ (finished, err e)
        | ok datagram ↦ elim others [
          | err e ↦ (after, err e)
          | ok datagrams ↦ (after, ok (datagram ∷ datagrams))
        ]
      ]

  -- The telephone-event in place of a frame.
  unfoldable pub send_digit : Core f k → ℕ → DtmfSend → Core f k × Result (List (List ℕ))
  unfolding send_events event_payload
  send_digit core pt before =
      let send = record before { sent = before.sent + 1 } in
      let end = leb (max core.config.dtmf_packets 1) send.sent in
      let (after, datagrams) =
        send_events (if end then 3 else 1) core pt send (event_payload core.config send) in
      elim datagrams [
        | err e ↦ (after, err e)
        | ok sent ↦ (
          record after { dtmf_sending = if end then none else some send; marker = true },
          ok sent,
        )
      ]

  unfoldable pub send_audio : Core f k → List Sample → Core f k × Result (List (List ℕ))
  unfolding finish
  send_audio core pcm =
      let (payload, encoder) = k.encode core.encoder pcm in
      let plain = Header.new core.config.payload_type core.seq core.timestamp core.ssrc in
      let header = if core.marker then with_marker plain else plain in
      let (after, first) =
        finish (record core { encoder = encoder; marker = false }) header payload in
      elim first [ err e ↦ (after, err e) | ok datagram ↦ (after, ok (datagram ∷ [])) ]

  -- One or the other, then the clock moves on.
  unfoldable pub send_next : Core f k → List Sample → Core f k × Result (List (List ℕ))
  unfolding send_digit send_audio
  send_next core pcm = elim core.dtmf_sending [
    | none ↦ send_audio core pcm
    | some send ↦ elim core.config.dtmf_payload_type [
      | none ↦ send_audio core pcm
      | some pt ↦ send_digit core pt send
    ]
  ]

  -- The audio clock moves on by one packet.
  unfoldable pub pace : Core f k × Result (List (List ℕ)) → Core f k × Result (List (List ℕ))
  pace (core, err e) = (core, err e)
  pace (core, ok datagrams) = (
    record core {
      timestamp = (core.timestamp + rtp_ticks_per_packet core.config.codec) % 4294967296;
    },
    ok datagrams,
  )

  unfoldable pub packetize : Core f k → List Sample → Core f k × Result (List (List ℕ))
  unfolding begin_digit send_next pace
  packetize core pcm =
      if not (length pcm == pcm_samples_per_packet core.config.codec)
      then (core, err invalid_parameter)
      else pace (send_next (begin_digit core) pcm)

  unfoldable pub sender_report : Core f k → UnixTime → Core f k × Result (List ℕ)
  sender_report core now =
      let report =
        build_rtcp_sr core.ssrc (core.stats.packets_sent % 4294967296)
          (core.stats.bytes_sent % 4294967296) core.timestamp now in
      elim core.srtp [
        | none ↦ (core, ok report)
        | some pair ↦
            let (outbound, protected) = protect_rtcp c pair.outbound report in
            (record core { srtp = some (record pair { outbound = outbound }) }, protected)
      ]
