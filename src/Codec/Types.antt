-- ===== src/Codec/Types.antt =====
-- CodecType of src/codec/mod.rs, with the `opus` feature.
pub mod Laws
mod Tests
use Prim.Native.String.{String}
use rtp_engine.Base.{ℕ, ◌+◌, ◌*◌, ◌/◌, Option, none, some, List, [], ◌∷◌, ◌==◌, if◌then◌else◌}

pub data CodecType : Type 0 where
  pcmu pcma g729 g722 opus : CodecType

unfoldable pub payload_type : CodecType → ℕ
payload_type pcmu = 0
payload_type pcma = 8
payload_type g729 = 18
payload_type g722 = 9
payload_type opus = 111

unfoldable pub name : CodecType → String
name pcmu = "PCMU"
name pcma = "PCMA"
name g729 = "G729"
name g722 = "G722"
name opus = "opus"

unfoldable pub clock_rate : CodecType → ℕ
clock_rate pcmu = 8000
clock_rate pcma = 8000
clock_rate g729 = 8000
clock_rate g722 = 8000
clock_rate opus = 48000

unfoldable pub pcm_rate : CodecType → ℕ
pcm_rate pcmu = 8000
pcm_rate pcma = 8000
pcm_rate g729 = 8000
pcm_rate g722 = 16000
pcm_rate opus = 48000

abbrev pub packet_duration_ms : ℕ
packet_duration_ms = 20

unfoldable pub pcm_samples_per_packet : CodecType → ℕ
unfolding pcm_rate
pcm_samples_per_packet codec = pcm_rate codec * packet_duration_ms / 1000

unfoldable pub rtp_ticks_per_packet : CodecType → ℕ
unfolding clock_rate
rtp_ticks_per_packet codec = clock_rate codec * packet_duration_ms / 1000

unfoldable pub channels : CodecType → ℕ
channels codec = 1

unfoldable pub frame_duration_ms : CodecType → ℕ
frame_duration_ms pcmu = 20
frame_duration_ms pcma = 20
frame_duration_ms g729 = 10
frame_duration_ms g722 = 20
frame_duration_ms opus = 20

unfoldable pub samples_per_frame : CodecType → ℕ
unfolding pcm_rate frame_duration_ms
samples_per_frame codec = pcm_rate codec * frame_duration_ms codec / 1000

unfoldable pub bitrate_kbps : CodecType → ℕ
bitrate_kbps pcmu = 64
bitrate_kbps pcma = 64
bitrate_kbps g729 = 8
bitrate_kbps g722 = 64
bitrate_kbps opus = 32

unfoldable pub from_payload_type : ℕ → Option CodecType
from_payload_type pt =
    if pt == 0
    then some pcmu
    else if pt == 8
    then some pcma
    else if pt == 18
    then some g729
    else if pt == 9
    then some g722
    else if pt == 111
    then some opus
    else none

unfoldable pub all : List CodecType
all = pcmu ∷ pcma ∷ g729 ∷ g722 ∷ opus ∷ []
