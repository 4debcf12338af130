-- ===== src/AudioProc/Voice/Tests.antt =====
-- Streams that start and restart, with a number for the backend: how often it was started over.
use rtp_engine.Base.{ℕ, suc, true, Option, none, some, List, [], ◌∷◌, ◌≡◌, refl}
use rtp_engine.AudioProc.Frame
use rtp_engine.AudioProc.Voice.{
  Side, capture, render, active, disabled, new, started, build_backend, negotiate, settle, attach,
}
use rtp_engine.AudioProc.Voice.Laws.{
  Agrees, last_capture, last_render, attach_all, new-attach_all-Agrees,
}

abbrev fresh_backend : ℕ → Option ℕ
fresh_backend rate = some 0

abbrev count_up : ℕ → ℕ
count_up n = suc n

abbrev agreeing : List (Side × ℕ)
agreeing = (capture, 44100) ∷ (capture, 48000) ∷ (render, 48000) ∷ (render, 48000) ∷ []

agreeing_runs : attach_all fresh_backend count_up (new true) agreeing ≡ active 48000 1
unfolding attach_all attach settle negotiate build_backend started new Frame.new
agreeing_runs = refl

changed_stops :
    attach_all fresh_backend count_up (active 48000 0) ((render, 16000) ∷ (render, 48000) ∷ [])
    ≡ disabled
unfolding attach_all attach
changed_stops = refl

new-attach_all-Agrees_example :
    Agrees
      (last_capture none agreeing)
      (last_render none agreeing)
      (attach_all fresh_backend count_up (new true) agreeing)
new-attach_all-Agrees_example = new-attach_all-Agrees fresh_backend count_up true agreeing
