-- ===== src/Jitter/Tests.antt =====
-- The jitter buffer on concrete packets, with whole numbers in place of floats.
use rtp_engine.Base.{ℕ, ◌≡◌, refl, true, List, [], ◌∷◌, some, arith}
use rtp_engine.Base.Float.{whole}
use rtp_engine.Jitter.State.{JitterBuffer, default_config, new, discontinuity}
use rtp_engine.Jitter.Arrival.{push_at}
use rtp_engine.Jitter.Playout.{pop_at}
use rtp_engine.Jitter.Invariant.{IsReady}
use rtp_engine.Jitter.Delay.{adapt_times, adapt_times-settles}
use rtp_engine.Jitter.Run.{Event, arrives, plays, run, new-run-Ready}
use rtp_engine.Jitter.Rollover.{late_then_next_clears}
use rtp_engine.Jitter.Loss.{pop_at-missing}
use rtp_engine.Jitter.Lateness.{Outcome, packet_of, push_at-Outcome}

abbrev some_events : List Event
some_events = arrives 7 160 (1 ∷ []) 0 ∷ arrives 9 480 (3 ∷ []) 1000 ∷ plays 90000000 ∷ []

new-run-Ready_example :
    (after : JitterBuffer ℕ) × (run whole (new whole default_config) some_events ≡ some after)
    × IsReady after
new-run-Ready_example = new-run-Ready whole default_config some_events (omega arith)

-- Two packets with a number missing between them and one after, playout standing at the first.
abbrev waiting : JitterBuffer ℕ
waiting = record (new whole default_config) {
  packets = (65544, packet_of 65544 480 (3 ∷ []) 0) ∷ (65546, packet_of 65546 800 (5 ∷ []) 0) ∷ [];
  playout_seq = some 65543;
  seq_cycles = 1;
  last_seq = some 10;
  base_timestamp = some 160;
  base_time = some 0;
  playing = true;
}

abbrev at_packet : JitterBuffer ℕ
at_packet = record waiting { playout_seq = some 65544 }

pop_at-missing_example :
    (after : JitterBuffer ℕ) × (pop_at whole waiting 5
      ≡ some (
        some (record {
          seq = 7;
          timestamp = 160;
          payload = [];
          received_at = 5;
          synthesized = true;
        }),
        after,
      ))
    × (after.packets ≡ waiting.packets)
    × (after.playout_seq ≡ some 65544)
unfolding new discontinuity
pop_at-missing_example =
    pop_at-missing whole waiting 65543 65544 160 5 (omega arith) refl refl refl (omega arith) refl
      (omega arith)

-- A packet from before the rollover, a little too late.
push_at-Outcome_example :
    Outcome
      (discontinuity waiting)
      waiting.playout_seq
      waiting.packets
      65535
      (packet_of 65535 0 (1 ∷ []) 9)
      (push_at whole waiting 65535 0 (1 ∷ []) 9)
unfolding new
push_at-Outcome_example =
    push_at-Outcome whole waiting 65546 65535 0 (1 ∷ []) 9 160
      ((omega arith, (omega arith, tt)), omega arith) (refl, refl)
      (omega arith, omega arith, omega arith, omega arith) refl

adapt_times-settles_example : adapt_times 40 60 100 20 200 ≡ some 100
adapt_times-settles_example =
    adapt_times-settles 40 60 100 20 200 (omega arith) (omega arith) (omega arith)

-- A packet from before the rollover comes late, and the next one clears the buffer.
late_then_next_clears_example :
    (push_at whole (push_at whole waiting 65535 0 [] 9).1 11 960 [] 10).1.packets
    ≡ (11, packet_of 65547 960 [] 10) ∷ []
unfolding new discontinuity
late_then_next_clears_example =
    late_then_next_clears whole waiting 65546 65535 160 65543 9 10 0 960 [] [] (refl, refl)
      (omega arith, omega arith, omega arith, omega arith) (omega arith) refl refl (omega arith)
      (omega arith) (omega arith) (omega arith)
