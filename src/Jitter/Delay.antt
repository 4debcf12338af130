-- ===== src/Jitter/Delay.antt =====
-- The adaptive delay of the jitter buffer (`adapt_delay` of src/jitter.rs).
use rtp_engine.Base.{
  ℕ, zero, suc, ◌-◌, ◌≤◌, max, ◌≡◌, refl, ap, subst, Option, none, some, arith, min,
}
use rtp_engine.Base.Float.{F64}
use rtp_engine.Jitter.State.{JitterBuffer, JitterMode, jitter_ms, fixed, adaptive}
use rtp_engine.Jitter.Playout.{clamp, step_delay, adapt, adapt_delay}

-- The value that `clamp` gives when its bounds are in order.
abbrev pub clamped : ℕ → ℕ → ℕ → ℕ
clamped v low high = max low (min v high)

pub clamp-clamped : (v low high : ℕ) → low ≤ high → clamp v low high ≡ some (clamped v low high)
unfolding clamp
clamp-clamped v low high le = ground arith

pub adapt-clamped :
    (current wanted low high : ℕ)
    → low ≤ high
    → adapt current wanted low high
      ≡ some (clamped (step_delay current (clamped wanted low high)) low high)
unfolding adapt
adapt-clamped current wanted low high le =
    rw (adapt, clamp-clamped wanted low high le)
      (clamp-clamped (step_delay current (clamped wanted low high)) low high le)

abbrev pub gap : ℕ → ℕ → ℕ
gap a b = max (a - b) (b - a)

step_delay-nearer :
    (current target : ℕ)
    → target ≤ 4294967295
    → gap (step_delay current target) target ≤ gap current target - 1
unfolding step_delay
step_delay-nearer current target small = ground arith

adapt-nearer :
    (current target low high : ℕ)
    → high ≤ 4294967295
    → low ≤ target
    → target ≤ high
    → gap (clamped (step_delay current target) low high) target ≤ gap current target - 1
adapt-nearer current target low high small above below =
    omega (arith, step_delay-nearer current target (omega arith))

-- Adapting again and again to the same jitter.
unfoldable pub adapt_times : ℕ → ℕ → ℕ → ℕ → ℕ → Option ℕ
unfolding adapt
adapt_times zero current wanted low high = some current
adapt_times (suc n) current wanted low high = elim (adapt current wanted low high) [
  | none ↦ none
  | some delay ↦ adapt_times n delay wanted low high
]

-- From any delay, when the wanted delay stays the same, adapt_delay settles on it, held within the
-- bounds, in at most as many steps as the two are milliseconds apart, and stays there.
pub adapt_times-settles :
    (n current wanted low high : ℕ)
    → low ≤ high
    → high ≤ 4294967295
    → gap current (clamped wanted low high) ≤ n
    → adapt_times n current wanted low high ≡ some (clamped wanted low high)
unfolding adapt_times
adapt_times-settles zero current wanted low high le small near = ap some (omega arith)
adapt_times-settles (suc n) current wanted low high le small near =
    let target = clamped wanted low high in
    rw (adapt_times, adapt-clamped current wanted low high le)
      (adapt_times-settles n (clamped (step_delay current target) low high) wanted low high le small
        (omega
          (arith, adapt-nearer current target low high small (omega arith) (omega arith), near)))

-- A mode whose adaptive bounds are in order.
abbrev pub IsOrdered : JitterMode → Type 0
IsOrdered (fixed delay_ms) = Unit
IsOrdered (adaptive target_ms min_ms max_ms) = min_ms ≤ max_ms

-- The bounds of a mode hold for the delay.
abbrev pub Within : JitterMode → ℕ → Type 0
Within (fixed delay_ms) delay = Unit
Within (adaptive target_ms min_ms max_ms) delay = (min_ms ≤ delay) × (delay ≤ max_ms)

module _ (f : F64) where
  pub adapt_delay-returns :
      (b : JitterBuffer f.Value)
      → IsOrdered b.config.mode
      → (after : JitterBuffer f.Value) × (adapt_delay f b ≡ some after)
        × Within b.config.mode after.current_delay_ms
  unfolding adapt_delay
  adapt_delay-returns b ordered = go b.config.mode refl
    where
      go :
          (mode : JitterMode)
          → b.config.mode ≡ mode
          → (after : JitterBuffer f.Value) × (adapt_delay f b ≡ some after)
            × Within b.config.mode after.current_delay_ms
      go (fixed delay_ms) e = (b, simp (adapt_delay, e), rw e tt)
      go (adaptive target_ms min_ms max_ms) e =
          let wanted = f.to_unsigned 4294967295 (f.mul (jitter_ms f b) (f.of_ℕ 2)) in
          let target = clamped wanted min_ms max_ms in
          let delay = clamped (step_delay b.current_delay_ms target) min_ms max_ms in
          let le : min_ms ≤ max_ms = subst IsOrdered e ordered in
          (
            record b { current_delay_ms = delay },
            simp (adapt_delay, e, adapt-clamped b.current_delay_ms wanted min_ms max_ms le),
            rw e (omega arith, omega arith),
          )
