-- ===== src/Session/Dtmf/Tests.antt =====
-- A digit over a plain and an encrypted line, with audio sent in between.
use rtp_engine.Base.{
  ℕ, ◌+◌, ◌%◌, ◌≡◌, refl, ap, true, false, Option, none, some, List, [], ◌∷◌, map, length, arith,
}
use rtp_engine.Rtp.Packet.{parse}
use rtp_engine.Srtp.Crypto.Toy.{toy}
use rtp_engine.Srtp.Context.{SrtpContext, advance}
use rtp_engine.Session.Fixture.{unused, counters}
use rtp_engine.Session.Dtmf.{
  Line, usable, protect_packet, send, send_dtmf, send_code, event_code, dtmf_event_timestamp,
  dtmf_durations,
}
use rtp_engine.Session.Dtmf.Protected.{KeepEncrypted, AllSealed, shapes, send_dtmf-sealed}
use rtp_engine.Session.Dtmf.Laws.{five_of, number_of, TakeNumbers, send_dtmf-five}

-- "5"
abbrev five : List ℕ
five = 53 ∷ []

abbrev plain : Line
plain = record { tx_seq = 65534; tx_srtp = none; poisoned = false; counters = counters }

abbrev encrypted : Line
encrypted = record plain { tx_srtp = some unused }

-- The audio takes a number before a step, and moves the context by it.
abbrev moved_by : ℕ → Option SrtpContext → Option SrtpContext
moved_by seq none = none
moved_by seq (some ctx) = some (record ctx { tx = advance ctx.tx seq })

abbrev audio : ℕ → Line → Line
audio n line = record line {
  tx_seq = (line.tx_seq + 1) % 65536;
  tx_srtp = moved_by line.tx_seq line.tx_srtp;
}

audio-KeepEncrypted : KeepEncrypted toy unused audio
audio-KeepEncrypted n line (sound, held, keyed, keys) =
    (sound, _, ap (moved_by line.tx_seq) keyed, keys)

abbrev once : ℕ → ℕ
once n = 1

audio-TakeNumbers : TakeNumbers toy audio once
audio-TakeNumbers n line plain = (ap (moved_by line.tx_seq) plain, refl)

durations_scale : dtmf_durations 48000 ≡ 960 ∷ 1920 ∷ 2880 ∷ []
unfolding dtmf_durations
durations_scale = refl

letter_ignored : length (send_dtmf toy audio plain 101 8000 8000 160 0xbeef (65 ∷ [])).1 ≡ 0
unfolding send_dtmf send_code event_code
letter_ignored = refl

-- Behind a poisoned lock a packet goes out in the clear, on an encrypted call too.
poisoned_in_clear : (send toy (record encrypted { poisoned = true }) five).1 ≡ five
unfolding send protect_packet usable
poisoned_in_clear = refl

send_dtmf-five_example :
    map parse (send_dtmf toy audio plain 101 48000 8000 160 0xbeef five).1
    ≡ five_of
        (record {
          pt = 101;
          timestamp = dtmf_event_timestamp 160 48000 8000;
          ssrc = 0xbeef;
          code = 5;
        })
        (number_of 65534 once)
        160
unfolding event_code
send_dtmf-five_example =
    send_dtmf-five toy audio once plain 101 48000 8000 160 0xbeef 5 five audio-TakeNumbers refl
      (omega arith) (omega arith) (omega arith) (omega arith) refl

send_dtmf-sealed_example :
    AllSealed toy unused
      (record { pt = 101; timestamp = dtmf_event_timestamp 160 8000 8000; ssrc = 0xbeef; code = 5 })
      (shapes (dtmf_durations 8000))
      (send_dtmf toy audio encrypted 101 8000 8000 160 0xbeef five).1
unfolding event_code
send_dtmf-sealed_example =
    send_dtmf-sealed toy unused audio encrypted 101 8000 8000 160 0xbeef 5 five audio-KeepEncrypted
      (refl, unused, refl, (refl, refl, refl)) refl
