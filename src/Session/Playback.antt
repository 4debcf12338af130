-- ===== src/Session/Playback.antt =====
-- The queue between the two threads of `run_audio_rx` of src/session.rs: the end of a playout tick,
-- and `fill_playback`. A mutex is never poisoned.
pub mod Laws
mod Tests
use rtp_engine.Base.{
  ℕ, ◌+◌, ◌-◌, ◌*◌, ◌/◌, Bool, true, false, not, ◌&&◌, Option, none, some, List, [], ◌∷◌, ◌++◌,
  length, take, drop, replicate, ltb, if◌then◌else◌, zero, suc,
}

-- 60 ms and 500 ms at the native rate.
unfoldable pub pre_buffer_samples : ℕ → ℕ
pre_buffer_samples native_rate = native_rate * 60 / 1000

unfoldable pub max_buffer_samples : ℕ → ℕ
max_buffer_samples native_rate = native_rate / 2

module _ {Real : Type 0} where
  -- `sample_buffer` is extended: `none` where `drain` panics, which is asked for more than there is.
  unfoldable pub extend_queue : ℕ → List Real → List Real → Option (List Real)
  extend_queue most queue resampled =
      let excess = length queue + length resampled - most in
      if ltb most (length queue + length resampled)
      then if ltb (length queue) excess then none else some (drop excess queue ++ resampled)
      else some (queue ++ resampled)

  -- `pop_front().unwrap_or(0.0)` for every place of the buffer.
  unfoldable pub pop_all : Real → ℕ → List Real → List Real × List Real
  pop_all zero_sample zero queue = ([], queue)
  pop_all zero_sample (suc n) [] =
      let (played, rest) = pop_all zero_sample n [] in (zero_sample ∷ played, rest)
  pop_all zero_sample (suc n) (sample ∷ queue) =
      let (played, rest) = pop_all zero_sample n queue in (sample ∷ played, rest)

  -- `fill_playback` from the test for an empty queue on, with playback started.
  unfoldable pub play_on : Real → ℕ → List Real → List Real × List Real × Bool
  unfolding pop_all
  play_on zero_sample n [] = (replicate n zero_sample, [], false)
  play_on zero_sample n (sample ∷ queue) =
      let (played, rest) = pop_all zero_sample n (sample ∷ queue) in (played, rest, true)

  -- The samples played, the queue and whether playback has started, for a buffer of `n` places.
  unfoldable pub fill_playback : Real → ℕ → ℕ → List Real → Bool → List Real × List Real × Bool
  unfolding play_on
  fill_playback zero_sample n pre_buffer queue started =
      if not started && ltb (length queue) pre_buffer
      then (replicate n zero_sample, queue, started)
      else play_on zero_sample n queue
