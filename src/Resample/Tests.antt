-- ===== src/Resample/Tests.antt =====
-- Resampling with whole numbers in place of floats, and a crate that halves a chunk of two.
use rtp_engine.Base.{◌≡◌, refl, [], ◌∷◌, ◌++◌, arith}
use rtp_engine.Base.Float.{whole}
use rtp_engine.Resample.{process, resample_linear_simple}
use rtp_engine.Resample.Laws.{process-append}
use rtp_engine.Resample.Whole.{whole32, crate, resampler}

-- Twice as slow: every second sample.
halved : resample_linear_simple whole whole32 (1 ∷ 2 ∷ 3 ∷ 4 ∷ []) 16000 8000 ≡ 1 ∷ 3 ∷ []
unfolding resample_linear_simple
halved = refl

process-append_example :
    let first = process whole whole32 crate resampler (1 ∷ 2 ∷ 3 ∷ []) in
    let second = process whole whole32 crate first.1 (4 ∷ 5 ∷ []) in
    process whole whole32 crate resampler (1 ∷ 2 ∷ 3 ∷ 4 ∷ 5 ∷ []) ≡ (first.0 ++ second.0, second.1)
process-append_example =
    process-append whole whole32 crate resampler (1 ∷ 2 ∷ 3 ∷ []) (4 ∷ 5 ∷ []) (omega arith)
