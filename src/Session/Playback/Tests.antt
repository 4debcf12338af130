-- ===== src/Session/Playback/Tests.antt =====
-- A queue of three samples.
use rtp_engine.Base.{ℕ, ◌≡◌, ◌⊎◌, refl, false, List, [], ◌∷◌, length}
use rtp_engine.Session.Playback.{fill_playback, pre_buffer_samples, max_buffer_samples}
use rtp_engine.Session.Playback.Laws.{Paused, Plays, fill_playback-fills}

abbrev queued : List ℕ
queued = 1 ∷ 2 ∷ 3 ∷ []

lengths : (pre_buffer_samples 48000 ≡ 2880) × (max_buffer_samples 48000 ≡ 24000)
unfolding pre_buffer_samples max_buffer_samples
lengths = (refl, refl)

fill_playback-fills_example :
    let filled = fill_playback 0 5 4 queued false in
    (length filled.0 ≡ 5) × (Paused 0 5 4 queued false filled ⊎ Plays 0 5 4 queued false filled)
fill_playback-fills_example = fill_playback-fills 0 5 4 queued false
