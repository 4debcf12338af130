-- ===== src/Codec.antt =====
-- The codecs of src/codec.
pub mod G711
pub mod G722
pub mod Types
pub mod Coder
pub mod Negotiation
