-- ===== src/Recorder/Tests.antt =====
-- A recording of three samples sent and one received.
use rtp_engine.Base.{ℕ, ◌≡◌, refl, some, none, List, [], ◌∷◌, arith}
use rtp_engine.Codec.G711.{plus, minus}
use rtp_engine.Recorder.{new, start, add_tx, stop, write_wav}
use rtp_engine.Recorder.Laws.{Piece, of_tx, of_rx, record_all, recording_read_back}
use rtp_engine.Recorder.Reader.{read_wav}

abbrev pieces : List Piece
pieces = of_tx (plus 1 ∷ minus 2 ∷ []) ∷ of_rx (plus 300 ∷ []) ∷ of_tx (minus 32768 ∷ []) ∷ []

-- Before the recorder is started nothing is kept.
early_ignored : write_wav (add_tx (new 8000) (plus 1 ∷ [])) ≡ none
unfolding write_wav add_tx new
early_ignored = refl

recording_read_back_example :
    (file : List ℕ) × ((stop (record_all (start (new 8000)) pieces)).1 ≡ some file)
    × (read_wav file
        ≡ some (8000, plus 1 ∷ minus 2 ∷ minus 32768 ∷ [], plus 300 ∷ plus 0 ∷ plus 0 ∷ []))
recording_read_back_example =
    recording_read_back 8000 pieces
      (
        (omega arith, ((omega arith, omega arith), ((omega arith, omega arith), tt))),
        (omega arith, tt),
        omega arith,
        omega arith,
      )
      (omega arith)
