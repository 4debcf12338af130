-- ===== src/Session/Playback/Laws.antt =====
-- What the speaker is given by src/session.rs.
use rtp_engine.Base.{
  ℕ, zero, suc, ◌+◌, ◌-◌, ◌≤◌, ◌<◌, ◌≡◌, refl, ap, sym, ◌∙◌, ◌⊎◌, inl, inr, Bool, true, false, some,
  List, [], ◌∷◌, ◌++◌, length, take, drop, replicate, ltb, arith, length-drop, length-append,
  length-replicate, length-take, Bool-cases, ltb→lt, not_ltb→le, le→not_ltb,
}
use rtp_engine.Base.Drain.{drop_within}
use rtp_engine.Session.Playback.{extend_queue, pop_all, play_on, fill_playback}

module _ {Real : Type 0} (silence : Real) where
  -- The front of a queue, with silence behind it where it is too short.
  abbrev pub front : ℕ → List Real → List Real
  front n queue = take n queue ++ replicate (n - length queue) silence

  no_front : (n : ℕ) → take {A = Real} n [] ≡ []
  no_front zero = refl
  no_front (suc n) = refl

  nothing_left : (n : ℕ) → drop {A = Real} n [] ≡ []
  nothing_left zero = refl
  nothing_left (suc n) = refl

  pop_all-front :
      (n : ℕ) (queue : List Real) → pop_all silence n queue ≡ (front n queue, drop n queue)
  unfolding pop_all
  pop_all-front zero [] = refl
  pop_all-front zero (sample ∷ queue) =
      let nothing : 0 ≡ 0 - suc (length queue) = omega arith in
      λ i. (replicate (nothing i) silence, sample ∷ queue)
  pop_all-front (suc n) [] =
      let rest = pop_all-front n [] in
      let left : n - 0 ≡ n = omega arith in
      let more : suc n ≡ suc n - 0 = omega arith in
      (λ i. (silence ∷ (rest i).0, (rest i).1))
      ∙ (λ i. (silence ∷ (no_front n i ++ replicate (left i) silence), nothing_left n i))
      ∙ (λ i. (replicate (more i) silence, []))
  pop_all-front (suc n) (sample ∷ queue) =
      let rest = pop_all-front n queue in
      let fewer : n - length queue ≡ suc n - suc (length queue) = omega arith in
      (λ i. (sample ∷ (rest i).0, (rest i).1))
      ∙ (λ i. (sample ∷ (take n queue ++ replicate (fewer i) silence), drop n queue))

  length-front : (n : ℕ) (queue : List Real) → length (front n queue) ≡ n
  length-front n queue = omega (
    arith,
    length-append (take n queue) (replicate (n - length queue) silence),
    length-take n queue,
    length-replicate (n - length queue) silence,
  )

  -- A buffer of silence, with the queue as it was: before the pre-buffer is full, or with nothing
  -- queued.
  abbrev pub Paused : ℕ → ℕ → List Real → Bool → List Real × List Real × Bool → Type 0
  Paused n pre_buffer queue started (played, rest, playing) =
      (playing ≡ false)
      × (played ≡ replicate n silence)
      × (rest ≡ queue)
      × (((started ≡ false) × (length queue < pre_buffer)) ⊎ (queue ≡ []))

  -- The front of the queue, which is taken off it.
  abbrev pub Plays : ℕ → ℕ → List Real → Bool → List Real × List Real × Bool → Type 0
  Plays n pre_buffer queue started (played, rest, playing) =
      (playing ≡ true)
      × (played ≡ front n queue)
      × (rest ≡ drop n queue)
      × ((started ≡ true) ⊎ (pre_buffer ≤ length queue))

  play_on-cases :
      (n pre_buffer : ℕ) (queue : List Real) (started : Bool)
      → (started ≡ true) ⊎ (pre_buffer ≤ length queue)
      → Paused n pre_buffer queue started (play_on silence n queue)
        ⊎ Plays n pre_buffer queue started (play_on silence n queue)
  unfolding play_on
  play_on-cases n pre_buffer [] started begun = inl (refl, refl, refl, inr refl)
  play_on-cases n pre_buffer (sample ∷ queue) started begun =
      let popped = pop_all-front n (sample ∷ queue) in
      inr (refl, ap (λ r. r.0) popped, ap (λ r. r.1) popped, begun)

  fill_playback-cases :
      (n pre_buffer : ℕ) (queue : List Real) (started : Bool)
      → Paused n pre_buffer queue started (fill_playback silence n pre_buffer queue started)
        ⊎ Plays n pre_buffer queue started (fill_playback silence n pre_buffer queue started)
  unfolding fill_playback
  fill_playback-cases n pre_buffer queue true = play_on-cases n pre_buffer queue true (inl refl)
  fill_playback-cases n pre_buffer queue false = elim (Bool-cases (ltb (length queue) pre_buffer)) [
    | inl waits ↦ simp waits (inl (refl, refl, refl, inl (refl, ltb→lt _ _ waits)))
    | inr full ↦ simp full (play_on-cases n pre_buffer queue false (inr (not_ltb→le _ _ full)))
  ]

  filled_length :
      (n pre_buffer : ℕ) (queue : List Real) (started : Bool) (r : List Real × List Real × Bool)
      → Paused n pre_buffer queue started r ⊎ Plays n pre_buffer queue started r
      → length r.0 ≡ n
  filled_length n pre_buffer queue started r (inl (playing, played, rest, why)) =
      ap length played ∙ length-replicate n silence
  filled_length n pre_buffer queue started r (inr (playing, played, rest, why)) =
      ap length played ∙ length-front n queue

  -- The speaker's buffer is always filled: with silence, the queue left as it is, while playback
  -- has not started and the pre-buffer is not full, or nothing is queued; otherwise with the front
  -- of the queue, and silence behind it where the queue runs dry.
  pub fill_playback-fills :
      (n pre_buffer : ℕ) (queue : List Real) (started : Bool)
      → let filled = fill_playback silence n pre_buffer queue started in
        (length filled.0 ≡ n)
        × (Paused n pre_buffer queue started filled ⊎ Plays n pre_buffer queue started filled)
  fill_playback-fills n pre_buffer queue started =
      let cases = fill_playback-cases n pre_buffer queue started in
      (filled_length n pre_buffer queue started _ cases, cases)

module _ {Real : Type 0} where
  -- A queue within its bound that is given a frame within it does not panic, and then holds the
  -- newest samples, the bound's number of them at most.
  pub extend_queue-bounded :
      (most : ℕ) (queue resampled : List Real)
      → length queue ≤ most
      → length resampled ≤ most
      → (after : List Real) × (extend_queue most queue resampled ≡ some after)
        × (length after ≤ most)
        × (after ≡ drop (length queue + length resampled - most) (queue ++ resampled))
  unfolding extend_queue
  extend_queue-bounded most queue resampled small fits =
      let excess = length queue + length resampled - most in
      let enough : ltb (length queue) excess ≡ false = le→not_ltb _ _ (omega arith) in
      let cut = drop_within excess queue resampled (omega arith) in
      let count = length-drop excess queue in
      let total = length-append (drop excess queue) resampled in
      elim (Bool-cases (ltb most (length queue + length resampled))) [
        | inl over ↦
            let beyond = ltb→lt _ _ over in
            (
              drop excess queue ++ resampled,
              simp (extend_queue, over, enough),
              omega (arith, count, total, beyond),
              sym cut,
            )
        | inr within ↦
            let inside = not_ltb→le _ _ within in
            let none_over : excess ≡ 0 = omega (arith, inside) in
            (
              queue ++ resampled,
              simp (extend_queue, within),
              omega (arith, length-append queue resampled, inside),
              sym (ap (λ e. drop e (queue ++ resampled)) none_over),
            )
      ]
