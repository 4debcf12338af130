-- ===== src/Codec/Types/Tests.antt =====
-- The tables of src/codec/mod.rs at one codec.
use rtp_engine.Base.{◌≡◌, refl, some}
use rtp_engine.Codec.Types.{opus, payload_type, from_payload_type}

opus_told : from_payload_type (payload_type opus) ≡ some opus
unfolding from_payload_type payload_type
opus_told = refl
