-- ===== src/AudioProc.antt =====
-- The audio processing of src/audio_proc.
pub mod Frame
pub mod Voice
pub mod Config
pub mod Paths
