-- ===== src/Stream/State.antt =====
-- The state of a stream, its construction and its queries (src/stream.rs).
use rtp_engine.Base.{
  ℕ, ◌+◌, ◌-◌, Bool, true, false, ◌&&◌, Option, none, some, List, [], leb, ◌==◌, if◌then◌else◌,
}
use rtp_engine.Base.Float.{F64}
use rtp_engine.Base.Net.{SocketAddr}
use rtp_engine.Error.{Result, ok, err, invalid_parameter}
use rtp_engine.Codec.Types.{CodecType, payload_type, clock_rate}
use rtp_engine.Codec.G711.{Sample}
use rtp_engine.Codec.Coder.{Coders}
use rtp_engine.Srtp.Context.{SrtpContext}
use rtp_engine.Jitter.State.{JitterMode, adaptive, JitterBuffer, JitterStats, no_stats}
use rtp_engine.Jitter.State

pub record SrtpPair : Type 0 where
  pub inbound : SrtpContext
  pub outbound : SrtpContext

pub record StreamConfig : Type 0 where
  pub codec : CodecType
  pub payload_type : ℕ
  pub dtmf_payload_type : Option ℕ
  pub dtmf_clock_rate : ℕ
  pub remote : SocketAddr
  pub jitter : JitterMode
  pub max_packets : ℕ
  pub rtp_timeout : ℕ
  pub dtmf_packets : ℕ

unfoldable pub new_config : CodecType → SocketAddr → StreamConfig
new_config codec remote = record {
  codec = codec;
  payload_type = payload_type codec;
  dtmf_payload_type = some 101;
  dtmf_clock_rate = 8000;
  remote = remote;
  jitter = adaptive 40 20 120;
  max_packets = 50;
  rtp_timeout = 5000000000;
  dtmf_packets = 5;
}

pub data FrameKind : Type 0 where
  received concealed silence : FrameKind

pub record AudioFrame : Type 0 where
  pub pcm : List Sample
  pub kind : FrameKind

pub record DtmfEvent : Type 0 where
  pub digit : ℕ
  pub event : ℕ

pub data StreamEvent : Type 0 where
  frame : AudioFrame → StreamEvent
  dtmf : DtmfEvent → StreamEvent
  timeout : (silent_for : ℕ) → StreamEvent

pub data Dropped : Type 0 where
  malformed unauthenticated replayed unexpected_source other_payload : Dropped

-- `Result<Option<DtmfEvent>, Dropped>`
pub data Verdict : Type 0 where
  accepted : Option DtmfEvent → Verdict
  dropped : Dropped → Verdict

pub record StreamStats (Float : Type 0) : Type 0 where
  pub packets_received : ℕ
  pub packets_sent : ℕ
  pub bytes_received : ℕ
  pub bytes_sent : ℕ
  pub dropped_malformed : ℕ
  pub dropped_unauthenticated : ℕ
  pub dropped_replayed : ℕ
  pub dropped_source : ℕ
  pub dropped_payload : ℕ
  pub ssrc_changes : ℕ
  pub latched : Option SocketAddr
  pub jitter : JitterStats Float

pub record DtmfSend : Type 0 where
  pub event : ℕ
  pub timestamp : ℕ
  pub sent : ℕ

abbrev pub end_bit : ℕ
end_bit = 0x80

abbrev pub dtmf_volume : ℕ
dtmf_volume = 0x0A

-- `char::to_ascii_uppercase` of a code point.
unfoldable pub to_ascii_uppercase : ℕ → ℕ
to_ascii_uppercase c = if leb b'a' c && leb c b'z' then c - 32 else c

unfoldable pub dtmf_event_code : ℕ → Option ℕ
unfolding to_ascii_uppercase
dtmf_event_code digit =
    let d = to_ascii_uppercase digit in
    if leb b'0' d && leb d b'9'
    then some (d - b'0')
    else if d == b'*'
    then some 10
    else if d == b'#'
    then some 11
    else if leb b'A' d && leb d b'D'
    then some (d - b'A' + 12)
    else none

unfoldable pub dtmf_digit : ℕ → Option ℕ
dtmf_digit event =
    if leb event 9
    then some (b'0' + event)
    else if event == 10
    then some b'*'
    else if event == 11
    then some b'#'
    else if leb event 15
    then some (b'A' + event - 12)
    else none

pub record StreamCore (Float Encoder Decoder : Type 0) : Type 0 where
  pub config : StreamConfig
  pub srtp : Option SrtpPair
  pub encoder : Encoder
  pub decoder : Decoder
  pub jitter : JitterBuffer Float
  pub stats : StreamStats Float
  pub remote_ssrc : Option ℕ
  pub last_dtmf_timestamp : Option ℕ
  pub started : Option ℕ
  pub last_packet : Option ℕ
  pub last_timeout : Option ℕ
  pub playing : Bool
  pub ssrc : ℕ
  pub seq : ℕ
  pub timestamp : ℕ
  pub marker : Bool
  pub dtmf : List ℕ
  pub dtmf_sending : Option DtmfSend

module _ (f : F64) where
  unfoldable pub no_stream_stats : StreamStats f.Value
  unfolding no_stats
  no_stream_stats = record {
    packets_received = 0;
    packets_sent = 0;
    bytes_received = 0;
    bytes_sent = 0;
    dropped_malformed = 0;
    dropped_unauthenticated = 0;
    dropped_replayed = 0;
    dropped_source = 0;
    dropped_payload = 0;
    ssrc_changes = 0;
    latched = none;
    jitter = no_stats f;
  }

  module _ (k : Coders) where
    abbrev pub Core : Type 0
    Core = StreamCore f.Value k.Encoder k.Decoder

    -- `StreamCore::new`, with what `rand::random` gave.
    unfoldable pub new : StreamConfig → Option SrtpPair → (ssrc seq timestamp : ℕ) → Result Core
    unfolding no_stream_stats
    new config srtp ssrc seq timestamp =
        if elim config.dtmf_payload_type [ none ↦ false | some pt ↦ pt == config.payload_type ]
        then err invalid_parameter
        else elim (k.create_encoder config.codec) [
          | err e ↦ err e
          | ok encoder ↦ elim (k.create_decoder config.codec) [
            | err e ↦ err e
            | ok decoder ↦ ok (record {
              config = config;
              srtp = srtp;
              encoder = encoder;
              decoder = decoder;
              jitter = State.new f (record {
                mode = config.jitter;
                clock_rate = clock_rate config.codec;
                max_packets = config.max_packets;
              });
              stats = no_stream_stats;
              remote_ssrc = none;
              last_dtmf_timestamp = none;
              started = none;
              last_packet = none;
              last_timeout = none;
              playing = false;
              ssrc = ssrc;
              seq = seq;
              timestamp = timestamp;
              marker = true;
              dtmf = [];
              dtmf_sending = none;
            })
          ]
        ]

    unfoldable pub destination : Core → SocketAddr
    destination core = elim core.stats.latched [
      | none ↦ core.config.remote
      | some latched ↦ latched
    ]

    unfoldable pub stats : Core → StreamStats f.Value
    stats core = record core.stats { jitter = State.stats f core.jitter }
