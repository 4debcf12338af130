-- ===== src/Session/Capture/Tests.antt =====
-- A microphone that was muted, over G.711 and an encrypted line.
use rtp_engine.Base.{ℕ, suc, ◌≡◌, true, false, List, [], ◌∷◌, ◌++◌, replicate, arith}
use rtp_engine.Base.Float.{whole}
use rtp_engine.Codec.Types.{pcmu}
use rtp_engine.Codec.Coder.{g711_coders}
use rtp_engine.Srtp.Crypto.Toy.{toy}
use rtp_engine.AudioProc.Voice.{active}
use rtp_engine.AudioProc.Paths
use rtp_engine.AudioProc.Paths.Laws.{new-IsFramed}
use rtp_engine.Resample.Whole.{whole32, crate, resampler}
use rtp_engine.Session.Fixture.{sender}
use rtp_engine.Session.Capture.{Microphone, callback}
use rtp_engine.Session.Capture.Buffers.{Alike, callback-callback}

abbrev count_frames : ℕ → List ℕ → ℕ × List ℕ
count_frames n frame = (suc n, frame)

abbrev mic : Microphone whole whole32 g711_coders ℕ ℕ
mic = record {
  voice = active 16000 0;
  path = Paths.new 16000;
  was_muted = true;
  buffer = 1 ∷ [];
  outlet = record { resampler = resampler; pending = []; sender = sender };
}

callback-callback_example :
    let whole_call =
      callback whole whole32 g711_coders ℕ ℕ count_frames crate pcmu 7 toy 320 false mic
        (replicate 200 1 ++ replicate 500 2) in
    let first =
      callback whole whole32 g711_coders ℕ ℕ count_frames crate pcmu 7 toy 320 false mic
        (replicate 200 1) in
    let second =
      callback whole whole32 g711_coders ℕ ℕ count_frames crate pcmu 7 toy 320 false first.1
        (replicate 500 2) in
    (whole_call.0 ≡ first.0 ++ second.0)
    × Alike whole whole32 g711_coders ℕ ℕ count_frames crate pcmu 7 toy 320 whole_call.1 second.1
callback-callback_example =
    callback-callback whole whole32 g711_coders ℕ ℕ count_frames crate pcmu 7 toy 320 mic
      (replicate 200 1) (replicate 500 2) (omega arith) (new-IsFramed ℕ 16000)
