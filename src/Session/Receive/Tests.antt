-- ===== src/Session/Receive/Tests.antt =====
-- A session that has heard nothing yet, and an even stream of Opus.
use rtp_engine.Base.{ℕ, ◌+◌, ◌≡◌, refl, some, [], ◌∷◌}
use rtp_engine.Base.Float.{whole}
use rtp_engine.Codec.Types.{pcmu, opus, rtp_ticks_per_packet}
use rtp_engine.Codec.Coder.{Law, g711_coders}
use rtp_engine.Srtp.Crypto.Toy.{toy}
use rtp_engine.Session.Fixture.{receiver, alice, stranger}
use rtp_engine.Session.Transmit.{destination}
use rtp_engine.Session.Receive.{Receiver, transit_of}
use rtp_engine.Session.Receive.Redirect.{Arriving, receive_all, first_heard-destination}
use rtp_engine.Session.Receive.Transit.{skew, smoothed, paced, paced-smoothed}

-- A datagram that is no RTP.
abbrev noise : Arriving
noise = record { datagram = 9 ∷ []; from = stranger; arrival = 0; now = 0 }

first_heard-destination_example :
    destination (receive_all whole g711_coders pcmu toy receiver (noise ∷ [])).learned alice
    ≡ stranger
first_heard-destination_example =
    first_heard-destination whole g711_coders pcmu toy receiver noise [] alice refl

abbrev heard : Receiver ℕ Law
heard = record receiver { last_transit = some (transit_of opus 5000000 3000) }

paced-smoothed_example :
    (paced whole g711_coders opus heard 3
      (5000000 + 20000)
      (3000 + rtp_ticks_per_packet opus)).counters
    ≡ smoothed whole 3 (skew opus) heard.counters
paced-smoothed_example = paced-smoothed whole g711_coders opus 3 heard 5000000 3000 refl
