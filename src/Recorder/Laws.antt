-- ===== src/Recorder/Laws.antt =====
-- What is recorded by src/recorder.rs, from the start to the file.
use rtp_engine.Base.{
  ℕ, ◌+◌, ◌<◌, ◌≡◌, refl, ap, sym, ◌∙◌, Bool, true, false, some, List, [], ◌∷◌, ◌++◌, length, arith,
  append-nil, append_assoc,
}
use rtp_engine.Codec.G711.{Sample}
use rtp_engine.Recorder.Wav.{wav_bytes}
use rtp_engine.Recorder.{CallRecorder, new, start, add_tx, add_rx, stop, write_wav}
use rtp_engine.Recorder.Reader.{FitsFile, padded, read_wav, wav_bytes-read}

-- What the two handles are given while the recorder runs, in any order.
pub data Piece : Type 0 where
  of_tx of_rx : List Sample → Piece

unfoldable pub record_all : CallRecorder → List Piece → CallRecorder
record_all recorder [] = recorder
record_all recorder (of_tx samples ∷ pieces) = record_all (add_tx recorder samples) pieces
record_all recorder (of_rx samples ∷ pieces) = record_all (add_rx recorder samples) pieces

abbrev pub tx_of : List Piece → List Sample
tx_of [] = []
tx_of (of_tx samples ∷ pieces) = samples ++ tx_of pieces
tx_of (of_rx samples ∷ pieces) = tx_of pieces

abbrev pub rx_of : List Piece → List Sample
rx_of [] = []
rx_of (of_tx samples ∷ pieces) = rx_of pieces
rx_of (of_rx samples ∷ pieces) = samples ++ rx_of pieces

abbrev running : List Sample → List Sample → ℕ → CallRecorder
running tx rx rate = record {
  recording = true;
  tx_samples = tx;
  rx_samples = rx;
  sample_rate = rate;
}

record_all-running :
    (tx rx : List Sample) (rate : ℕ) (pieces : List Piece)
    → record_all (running tx rx rate) pieces
      ≡ running (tx ++ tx_of pieces) (rx ++ rx_of pieces) rate
unfolding record_all add_tx add_rx
record_all-running tx rx rate [] = λ i. running (sym (append-nil tx) i) (sym (append-nil rx) i) rate
record_all-running tx rx rate (of_tx samples ∷ pieces) =
    record_all-running (tx ++ samples) rx rate pieces
    ∙ ap (λ t. running t (rx ++ rx_of pieces) rate) (append_assoc tx samples (tx_of pieces))
record_all-running tx rx rate (of_rx samples ∷ pieces) =
    record_all-running tx (rx ++ samples) rate pieces
    ∙ ap (λ r. running (tx ++ tx_of pieces) r rate) (append_assoc rx samples (rx_of pieces))

write_wav-some :
    (recording : Bool) (tx rx : List Sample) (rate : ℕ)
    → 0 < length tx + length rx
    → write_wav
        (record { recording = recording; tx_samples = tx; rx_samples = rx; sample_rate = rate })
      ≡ some (wav_bytes tx rx rate)
unfolding write_wav
write_wav-some recording [] [] rate some_samples = absurd (omega arith)
write_wav-some recording [] (r ∷ rx) rate some_samples = refl
write_wav-some recording (t ∷ tx) rx rate some_samples = refl

-- A recorder that is started, given pieces of both channels in any order, at least one sample in
-- all, and stopped, writes a file that a reader of WAV files reads back, while its size fits 32
-- bits: the sample rate, on the left all that was sent and on the right all that was received, each
-- in its order, the shorter one padded with silence at its end.
pub recording_read_back :
    (rate : ℕ) (pieces : List Piece)
    → FitsFile (tx_of pieces) (rx_of pieces) rate
    → 0 < length (tx_of pieces) + length (rx_of pieces)
    → (file : List ℕ) × ((stop (record_all (start (new rate)) pieces)).1 ≡ some file)
      × (read_wav file
          ≡ some (rate, padded (tx_of pieces) (rx_of pieces), padded (rx_of pieces) (tx_of pieces)))
unfolding stop start new
recording_read_back rate pieces fits some_samples =
    let tx = tx_of pieces in
    let rx = rx_of pieces in
    (
      wav_bytes tx rx rate,
      ap (λ r. (stop r).1) (record_all-running [] [] rate pieces)
          ∙ write_wav-some false tx rx rate some_samples,
      wav_bytes-read tx rx rate fits,
    )
