-- ===== src/Codec/Types/Laws.antt =====
-- What the tables of CodecType (src/codec/mod.rs) have to do with each other.
use rtp_engine.Base.{◌≡◌, refl, some}
use rtp_engine.Codec.Types.{
  CodecType, pcmu, pcma, g729, g722, opus, payload_type, from_payload_type,
}

-- The payload type numbers tell the codecs apart.
pub from_payload_type-payload_type :
    (codec : CodecType) → from_payload_type (payload_type codec) ≡ some codec
unfolding from_payload_type payload_type
from_payload_type-payload_type pcmu = refl
from_payload_type-payload_type pcma = refl
from_payload_type-payload_type g729 = refl
from_payload_type-payload_type g722 = refl
from_payload_type-payload_type opus = refl
