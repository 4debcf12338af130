-- ===== src/Stream/Digits.antt =====
-- The life of a queued digit (`packetize` of src/stream.rs), on a stream without SRTP.
use rtp_engine.Base.{
  ℕ, zero, suc, ◌+◌, ◌-◌, ◌%◌, ◌<◌, max, ◌≡◌, refl, ap, sym, subst, ◌∙◌, true, none, some, List, [],
  ◌∷◌, ◌++◌, arith, length, length-append,
}
use rtp_engine.Base.Float.{F64}
use rtp_engine.Error.{Result, ok, err}
use rtp_engine.Codec.Types.{pcm_samples_per_packet, rtp_ticks_per_packet}
use rtp_engine.Codec.G711.{Sample}
use rtp_engine.Codec.Coder.{Coders}
use rtp_engine.Rtp.Packet.Numbered.{Sequenced, Sequenced-append}
use rtp_engine.Srtp.Crypto.{Crypto}
use rtp_engine.Stream.State.{DtmfSend, Core}
use rtp_engine.Stream.Sending.{begin_digit, dtmf_timestamp, send_next, pace, packetize}
use rtp_engine.Stream.DigitPacket.{sent_on, packetize-last, packetize-more, packetize-sized}

module _ (f : F64) (k : Coders) (c : Crypto) where
  -- What is sent first, then what `next` sends.
  unfoldable pub proceed :
      Core f k × Result (List (List ℕ))
      → (Core f k → Core f k × Result (List (List ℕ)))
      → Core f k × Result (List (List ℕ))
  proceed (core, err e) next = (core, err e)
  proceed (core, ok datagrams) next =
      let (last, later) = next core in
      elim later [ err e ↦ (last, err e) | ok more ↦ (last, ok (datagrams ++ more)) ]

  -- Frame after frame, up to the first that is refused.
  unfoldable pub packetize_times : ℕ → Core f k → List Sample → Core f k × Result (List (List ℕ))
  unfolding proceed
  packetize_times zero core pcm = (core, ok [])
  packetize_times (suc n) core pcm =
      proceed (packetize f k c core pcm) (λ next. packetize_times n next pcm)

  packetize_times-suc :
      (n : ℕ) (core next last : Core f k) (pcm : List Sample) (datagrams more : List (List ℕ))
      → packetize f k c core pcm ≡ (next, ok datagrams)
      → packetize_times n next pcm ≡ (last, ok more)
      → packetize_times (suc n) core pcm ≡ (last, ok (datagrams ++ more))
  unfolding packetize_times
  packetize_times-suc n core next last pcm datagrams more first rest =
      simp (packetize_times, proceed, first, rest)

  -- A digit is over: its packets are out, under consecutive sequence numbers, and the next audio starts a talkspurt.
  abbrev pub Ends : (Core f k × Result (List (List ℕ))) → ℕ → List ℕ → ℕ → Type 0
  Ends result n queue seq =
      (datagrams : List (List ℕ)) × (last : Core f k) × (result ≡ (last, ok datagrams))
      × (length datagrams ≡ n)
      × Sequenced seq datagrams
      × (last.dtmf_sending ≡ none)
      × (last.dtmf ≡ queue)
      × (last.seq ≡ (seq + n) % 65536)
      × (last.marker ≡ true)

  digit-Ends :
      (left : ℕ) (core : Core f k) (pcm : List Sample) (pt : ℕ) (send : DtmfSend)
      → core.srtp ≡ none
      → core.seq < 65536
      → core.config.dtmf_payload_type ≡ some pt
      → core.dtmf_sending ≡ some send
      → length pcm ≡ pcm_samples_per_packet core.config.codec
      → send.sent + suc left ≡ max core.config.dtmf_packets 1
      → Ends (packetize_times (suc left) core pcm) (suc left + 2) core.dtmf core.seq
  unfolding packetize_times
  digit-Ends zero core pcm pt send plain fits typed sending sized total =
      let (datagrams, stats, e, count, numbered) =
        packetize-last f k c core pcm pt send plain fits typed sending sized
          (omega (arith, total)) in
      let last = record (sent_on f k c core 3 stats) {
        dtmf_sending = none;
        marker = true;
        timestamp = (core.timestamp + rtp_ticks_per_packet core.config.codec) % 4294967296;
      } in
      (
        datagrams ++ [],
        last,
        packetize_times-suc 0 core last last pcm datagrams [] e refl,
        omega (arith, length-append datagrams [], count),
        Sequenced-append core.seq 3 datagrams [] fits count numbered tt,
        refl,
        refl,
        refl,
        refl,
      )
  digit-Ends (suc left) core pcm pt send plain fits typed sending sized total =
      let after = record send { sent = send.sent + 1 } in
      let (datagrams, stats, e, count, numbered) =
        packetize-more f k c core pcm pt send plain fits typed sending sized
          (omega (arith, total)) in
      let next = record (sent_on f k c core 1 stats) {
        dtmf_sending = some after;
        marker = true;
        timestamp = (core.timestamp + rtp_ticks_per_packet core.config.codec) % 4294967296;
      } in
      let (more, last, e_more, count_more, numbered_more, done, queue, seq, marker) =
        digit-Ends left next pcm pt after plain (omega arith) typed refl sized
          (omega (arith, total)) in
      (
        datagrams ++ more,
        last,
        packetize_times-suc (suc left) core next last pcm datagrams more e e_more,
        omega (arith, length-append datagrams more, count, count_more),
        Sequenced-append core.seq 1 datagrams more fits count numbered numbered_more,
        done,
        queue,
        omega (arith, seq),
        marker,
      )

  -- The core once the next digit is taken from the queue.
  abbrev started : Core f k → ℕ → List ℕ → Core f k
  started core event rest = record core {
    dtmf = rest;
    dtmf_sending = some (record { event = event; timestamp = dtmf_timestamp core; sent = 0 });
  }

  packetize-started :
      (core : Core f k) (pcm : List Sample) (event : ℕ) (rest : List ℕ)
      → core.dtmf_sending ≡ none
      → core.dtmf ≡ event ∷ rest
      → length pcm ≡ pcm_samples_per_packet core.config.codec
      → packetize f k c core pcm ≡ packetize f k c (started core event rest) pcm
  unfolding begin_digit
  packetize-started core pcm event rest idle queued sized =
      packetize-sized f k c core pcm sized
      ∙ ap (λ b. pace f k c (send_next f k c b pcm)) (simp (begin_digit, idle, queued))
      ∙ sym (packetize-sized f k c (started core event rest) pcm sized)

  -- On a stream without SRTP that sends no digit and has one first in its queue, the frames of full
  -- size that follow, dtmf_packets of them (one, when that is 0), are all sent, as that many packets
  -- and two more, under consecutive sequence numbers; then the digit is over, the rest of the queue
  -- is left, and the next audio packet is marked as the start of a talkspurt.
  pub digit_sent :
      (core : Core f k) (pcm : List Sample) (pt event : ℕ) (rest : List ℕ)
      → core.srtp ≡ none
      → core.seq < 65536
      → core.config.dtmf_payload_type ≡ some pt
      → core.dtmf_sending ≡ none
      → core.dtmf ≡ event ∷ rest
      → length pcm ≡ pcm_samples_per_packet core.config.codec
      → Ends
          (packetize_times (max core.config.dtmf_packets 1) core pcm)
          (max core.config.dtmf_packets 1 + 2)
          rest
          core.seq
  unfolding packetize_times
  digit_sent core pcm pt event rest plain fits typed idle queued sized =
      let left = max core.config.dtmf_packets 1 - 1 in
      let rounds : suc left ≡ max core.config.dtmf_packets 1 = omega arith in
      let begins = packetize-started core pcm event rest idle queued sized in
      let same : packetize_times (suc left) core pcm
          ≡ packetize_times (suc left) (started core event rest) pcm =
        ap (λ r. proceed r (λ next. packetize_times left next pcm)) begins in
      subst (λ n. Ends (packetize_times n core pcm) (n + 2) rest core.seq) rounds
        (subst (λ r. Ends r (suc left + 2) rest core.seq) (sym same)
          (digit-Ends left (started core event rest) pcm pt
            (record { event = event; timestamp = dtmf_timestamp core; sent = 0 }) plain fits typed
            refl sized (omega (arith, rounds))))
