-- ===== src/AudioProc/Paths/Tests.antt =====
-- A microphone at 8000 Hz, with a backend that counts the frames and leaves them as they are.
use rtp_engine.Base.{ℕ, suc, ◌≡◌, refl, List, ◌++◌, replicate}
use rtp_engine.AudioProc.Config.{is_any_enabled, all_off}
use rtp_engine.AudioProc.Voice.{
  State, capture, render, active, disabled, started, build_backend, negotiate, settle, attach,
}
use rtp_engine.AudioProc.Voice
use rtp_engine.AudioProc.Paths.{AudioPath, new, process, voice_processor}
use rtp_engine.AudioProc.Paths.Laws.{new-IsFramed, process-process}

abbrev count_frames : ℕ → List ℕ → ℕ × List ℕ
count_frames n frame = (suc n, frame)

agent_waits : voice_processor {Backend = ℕ} all_off ≡ disabled
unfolding voice_processor is_any_enabled Voice.new
agent_waits = refl

abbrev microphone : AudioPath ℕ
microphone = new 8000

process-process_example :
    let whole =
      process count_frames (active 8000 0) microphone (replicate 100 1 ++ replicate 70 2) in
    let first = process count_frames (active 8000 0) microphone (replicate 100 1) in
    let second = process count_frames first.1 first.2 (replicate 70 2) in
    (whole.0 ≡ first.0 ++ second.0)
    × (whole.1 ≡ second.1)
    × (whole.2.accumulator ≡ second.2.accumulator)
process-process_example =
    process-process count_frames (active 8000 0) microphone (replicate 100 1) (replicate 70 2)
      (new-IsFramed ℕ 8000)
