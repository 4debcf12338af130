-- ===== src/Stream/DigitPacket.antt =====
-- One packet of a digit (`packetize` of src/stream.rs), on a stream without SRTP.
use rtp_engine.Base.{
  ℕ, zero, suc, ◌+◌, ◌%◌, ◌<◌, max, ◌≡◌, refl, ap, sym, subst, ◌∙◌, true, false, Option, none, some,
  List, [], ◌∷◌, ◌++◌, arith, length, leb, ◌==◌, if◌then◌else◌, ==_iff,
}
use rtp_engine.Base.Float.{F64}
use rtp_engine.Error.{Result, ok}
use rtp_engine.Codec.Types.{pcm_samples_per_packet, rtp_ticks_per_packet}
use rtp_engine.Codec.G711.{Sample}
use rtp_engine.Codec.Coder.{Coders}
use rtp_engine.Rtp.Header
use rtp_engine.Rtp.Header.{RtpHeader, with_marker, to_bytes}
use rtp_engine.Rtp.Packet.Numbered.{Sequenced, packet_sequence}
use rtp_engine.Srtp.Crypto.{Crypto}
use rtp_engine.Stream.State.{StreamStats, DtmfSend, Core}
use rtp_engine.Stream.Sending.{
  begin_digit, count_sent, event_payload, finish, send_events, send_digit, send_next, pace,
  packetize,
}

module _ (f : F64) (k : Coders) (c : Crypto) where
  -- The packets that leave change the counters and the sequence number alone.
  abbrev pub sent_on : Core f k → ℕ → StreamStats f.Value → Core f k
  sent_on core n stats = record core { seq = (core.seq + n) % 65536; stats = stats }

  pub finish-plain :
      (core : Core f k) (header : RtpHeader) (payload : List ℕ)
      → core.srtp ≡ none
      → finish f k c core header payload ≡ (
        sent_on core 1 (count_sent core (to_bytes header ++ payload)).stats,
        ok (to_bytes header ++ payload),
      )
  unfolding finish count_sent
  finish-plain core header payload plain = simp (finish, plain)

  send_events-plain :
      (n : ℕ) (core : Core f k) (pt : ℕ) (send : DtmfSend) (payload : List ℕ)
      → core.srtp ≡ none
      → core.seq < 65536
      → (datagrams : List (List ℕ)) × (stats : StreamStats f.Value) × (send_events f k c n core pt
            send payload
          ≡ (sent_on core n stats, ok datagrams))
        × (length datagrams ≡ n)
        × Sequenced core.seq datagrams
  unfolding send_events Header.new with_marker
  send_events-plain zero core pt send payload plain fits =
      ([], core.stats, ap (λ s. (record core { seq = s }, ok [])) (omega arith), refl, tt)
  send_events-plain (suc n) core pt send payload plain fits =
      let plain_header = Header.new pt core.seq send.timestamp core.ssrc in
      let header = if send.sent == 1 then with_marker plain_header else plain_header in
      let first = finish-plain core header payload plain in
      let numbers : header.sequence ≡ core.seq = ground arith in
      let packet = to_bytes header ++ payload in
      let next = sent_on core 1 (count_sent core packet).stats in
      let (datagrams, stats, e, count, numbered) =
        send_events-plain n next pt send payload plain (omega arith) in
      (
        packet ∷ datagrams,
        stats,
        simp (send_events, first, e)
            (ap (λ s. (record core { seq = s; stats = stats }, ok (packet ∷ datagrams)))
              (omega arith)),
        ap suc count,
        (
          packet_sequence header payload (subst (λ s. s < 65536) (sym numbers) fits)
              ∙ ap some numbers,
          numbered,
        ),
      )

  -- A packet of a digit: the datagrams, under consecutive sequence numbers, and the core after it.
  abbrev pub Sends : Core f k → (Core f k × Result (List (List ℕ))) → ℕ → Option DtmfSend → Type 0
  Sends core result n sending =
      (datagrams : List (List ℕ)) × (stats : StreamStats f.Value) × (result ≡ (
        record (sent_on core n stats) {
          dtmf_sending = sending;
          marker = true;
          timestamp = (core.timestamp + rtp_ticks_per_packet core.config.codec) % 4294967296;
        },
        ok datagrams,
      ))
      × (length datagrams ≡ n)
      × Sequenced core.seq datagrams

  packetize-digit :
      (core : Core f k) (pcm : List Sample) (pt : ℕ) (send : DtmfSend)
      → core.srtp ≡ none
      → core.seq < 65536
      → core.config.dtmf_payload_type ≡ some pt
      → core.dtmf_sending ≡ some send
      → length pcm ≡ pcm_samples_per_packet core.config.codec
      → Sends core
          (packetize f k c core pcm)
          (if leb (max core.config.dtmf_packets 1) (send.sent + 1) then 3 else 1)
          (if leb (max core.config.dtmf_packets 1) (send.sent + 1)
            then none
            else some (record send { sent = send.sent + 1 }))
  unfolding packetize begin_digit send_next send_digit
  packetize-digit core pcm pt send plain fits typed sending sized =
      let after = record send { sent = send.sent + 1 } in
      let end = leb (max core.config.dtmf_packets 1) (send.sent + 1) in
      let (datagrams, stats, e, count, numbered) =
        send_events-plain (if end then 3 else 1) core pt after (event_payload core.config after)
          plain fits in
      let right : (length pcm == pcm_samples_per_packet core.config.codec) ≡ true =
        (==_iff _ _).1 sized in
      (
        datagrams,
        stats,
        simp (packetize, right, begin_digit, sending, send_next, typed, send_digit, e, pace),
        count,
        numbered,
      )

  -- The last packet of a digit goes out three times, each other one once.
  pub packetize-last :
      (core : Core f k) (pcm : List Sample) (pt : ℕ) (send : DtmfSend)
      → core.srtp ≡ none
      → core.seq < 65536
      → core.config.dtmf_payload_type ≡ some pt
      → core.dtmf_sending ≡ some send
      → length pcm ≡ pcm_samples_per_packet core.config.codec
      → send.sent + 1 ≡ max core.config.dtmf_packets 1
      → Sends core (packetize f k c core pcm) 3 none
  packetize-last core pcm pt send plain fits typed sending sized total =
      let end : leb (max core.config.dtmf_packets 1) (send.sent + 1) ≡ true = ground arith in
      subst
        (λ b.
          Sends core (packetize f k c core pcm) (if b then 3 else 1)
            (if b then none else some (record send { sent = send.sent + 1 })))
        end (packetize-digit core pcm pt send plain fits typed sending sized)

  pub packetize-more :
      (core : Core f k) (pcm : List Sample) (pt : ℕ) (send : DtmfSend)
      → core.srtp ≡ none
      → core.seq < 65536
      → core.config.dtmf_payload_type ≡ some pt
      → core.dtmf_sending ≡ some send
      → length pcm ≡ pcm_samples_per_packet core.config.codec
      → send.sent + 1 < max core.config.dtmf_packets 1
      → Sends core (packetize f k c core pcm) 1 (some (record send { sent = send.sent + 1 }))
  packetize-more core pcm pt send plain fits typed sending sized total =
      let end : leb (max core.config.dtmf_packets 1) (send.sent + 1) ≡ false = ground arith in
      subst
        (λ b.
          Sends core (packetize f k c core pcm) (if b then 3 else 1)
            (if b then none else some (record send { sent = send.sent + 1 })))
        end (packetize-digit core pcm pt send plain fits typed sending sized)

  pub packetize-sized :
      (core : Core f k) (pcm : List Sample)
      → length pcm ≡ pcm_samples_per_packet core.config.codec
      → packetize f k c core pcm ≡ pace f k c (send_next f k c (begin_digit core) pcm)
  unfolding packetize
  packetize-sized core pcm sized =
      let right : (length pcm == pcm_samples_per_packet core.config.codec) ≡ true =
        (==_iff _ _).1 sized in
      simp (packetize, right)
