-- ===== src/Stream/Tests.antt =====
-- A stream of G.711 without SRTP, with whole numbers in place of floats.
use rtp_engine.Base.{ℕ, ◌≡◌, refl, inl, true, false, List, [], ◌∷◌, none, some, arith, replicate}
use rtp_engine.Base.Float.{whole}
use rtp_engine.Base.Net.{SocketAddr, v4}
use rtp_engine.Error.{ok}
use rtp_engine.Codec.Types.{pcmu, pcm_samples_per_packet}
use rtp_engine.Codec.G711.{Sample, plus}
use rtp_engine.Codec.Coder.{Law, mu, g711_coders, encode_by}
use rtp_engine.Srtp.Crypto.Toy.{toy}
use rtp_engine.Jitter.State.{default_mode}
use rtp_engine.Jitter.State
use rtp_engine.Jitter.Arrival.{push_at}
use rtp_engine.Stream.State.{StreamCore, StreamConfig, no_stream_stats, destination, accepted}
use rtp_engine.Stream.Arrival.{is_dtmf, is_expected, ingest}
use rtp_engine.Stream.Sending.{packetize}
use rtp_engine.Stream.Latch.{ingest_all, ingest_all-own_host}
use rtp_engine.Stream.Digits.{packetize_times, digit_sent, Ends}
use rtp_engine.Stream.Passage.{audio_datagram, audio_passes}

abbrev pbx : SocketAddr
pbx = record { ip = v4 0xC0000201; port = 4000; flowinfo = 0; scope_id = 0 }

abbrev stranger : SocketAddr
stranger = record { ip = v4 0xCB007101; port = 4000; flowinfo = 0; scope_id = 0 }

abbrev config : StreamConfig
config = record {
  codec = pcmu;
  payload_type = 0;
  dtmf_payload_type = some 101;
  dtmf_clock_rate = 8000;
  remote = pbx;
  jitter = default_mode;
  max_packets = 50;
  rtp_timeout = 5000000000;
  dtmf_packets = 5;
}

abbrev fresh : StreamCore ℕ Law Law
fresh = record {
  config = config;
  srtp = none;
  encoder = mu;
  decoder = mu;
  jitter = State.new whole (record { mode = default_mode; clock_rate = 8000; max_packets = 50 });
  stats = no_stream_stats whole;
  remote_ssrc = none;
  last_dtmf_timestamp = none;
  started = none;
  last_packet = none;
  last_timeout = none;
  playing = false;
  ssrc = 0x1234;
  seq = 65535;
  timestamp = 1000;
  marker = true;
  dtmf = [];
  dtmf_sending = none;
}

abbrev one_frame : List Sample
one_frame = replicate 160 (plus 0)

abbrev dialing : StreamCore ℕ Law Law
dialing = record fresh { dtmf = 7 ∷ 8 ∷ [] }

-- An empty RTP packet of the audio's type.
abbrev plain_packet : List ℕ
plain_packet = 0x80 ∷ 0 ∷ 0 ∷ 1 ∷ 0 ∷ 0 ∷ 0 ∷ 0 ∷ 0 ∷ 0 ∷ 0 ∷ 9 ∷ []

abbrev learned : StreamCore ℕ Law Law
learned = (ingest whole g711_coders toy fresh plain_packet pbx 5).0

ingest_all-own_host_example :
    (destination whole g711_coders (
      ingest_all whole g711_coders toy fresh
        ((plain_packet, stranger, 5) ∷ (plain_packet, pbx, 6) ∷ []))).ip
    ≡ v4 0xC0000201
unfolding no_stream_stats
ingest_all-own_host_example =
    ingest_all-own_host whole g711_coders toy fresh
      ((plain_packet, stranger, 5) ∷ (plain_packet, pbx, 6) ∷ []) refl refl

abbrev locked : StreamCore ℕ Law Law
locked = record fresh { stats = record fresh.stats { latched = some pbx } }

digit_sent_example :
    Ends whole g711_coders toy
      (packetize_times whole g711_coders toy 5 dialing one_frame)
      7
      (8 ∷ [])
      65535
unfolding pcm_samples_per_packet
digit_sent_example =
    digit_sent whole g711_coders toy dialing one_frame 101 7 (8 ∷ []) refl (omega arith) refl refl
      refl refl

audio_passes_example :
    ((packetize whole g711_coders toy fresh one_frame).1
      ≡ ok (audio_datagram whole g711_coders toy fresh one_frame ∷ []))
    × ((ingest whole g711_coders toy locked
          (audio_datagram whole g711_coders toy fresh one_frame)
          pbx
          9).1
        ≡ accepted none)
    × ((ingest whole g711_coders toy locked
          (audio_datagram whole g711_coders toy fresh one_frame)
          pbx
          9).0.jitter
        ≡ (push_at whole locked.jitter 65535 1000 (encode_by mu one_frame).0 9).1)
unfolding pcm_samples_per_packet is_dtmf is_expected
audio_passes_example =
    audio_passes whole g711_coders toy fresh locked one_frame pbx 9 refl refl refl refl
      (record {
        type_fits = omega arith;
        seq_fits = omega arith;
        timestamp_fits = omega arith;
        ssrc_fits = omega arith;
      })
      (record {
        typed = (refl, refl);
        no_rtcp = inl (omega arith);
        plain = refl;
        expected = refl;
        same_source = inl refl;
      })

-- An event before the timestamp wraps, and the packets of the next press after it.
abbrev waiting : StreamCore ℕ Law Law
waiting = record fresh { last_dtmf_timestamp = some 4294967000 }

abbrev updates : List (ℕ × ℕ)
updates = (4294968000, 5) ∷ (4294967000, 4) ∷ (4294968000, 5) ∷ []
