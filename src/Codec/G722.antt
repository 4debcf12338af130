-- ===== src/Codec/G722.antt =====
-- G.722 (src/codec/g722.rs): the tables, the adaptive predictor of a band, the encoder and the
-- decoder. The sums and products are those of the unbounded integers.
pub mod Tables
pub mod Band
pub mod Encoder
pub mod Decoder
pub mod Sync
pub mod Chunks
pub mod Range
pub mod Bounds
pub mod Run
mod Tests
