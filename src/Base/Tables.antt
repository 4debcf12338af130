-- ===== src/Base/Tables.antt =====
-- Running a test on every number of a range, to settle a statement about bytes by computing.
use Prim.Native.Nat.{ℕ, zero, suc, ◌+◌, ◌<◌}
use mathlib.Core.Path.{◌≡◌, subst}
use mathlib.Core.Bool.{Bool, true, false, ◌&&◌}
use native.Mathlib.Omega.{arith}

-- The test on `count` numbers from `start` on.
unfoldable pub passes_from : (ℕ → Bool) → ℕ → ℕ → Bool
passes_from test start zero = true
passes_from test start (suc count) = test start && passes_from test (suc start) count

conjuncts : (a b : Bool) → (a && b) ≡ true → (a ≡ true) × (b ≡ true)
conjuncts true true passed = ground arith
conjuncts true false passed = ground arith
conjuncts false b passed = ground arith

passes_from-at :
    (test : ℕ → Bool) (start count offset : ℕ)
    → passes_from test start count ≡ true
    → offset < count
    → test (start + offset) ≡ true
unfolding passes_from
passes_from-at test start zero offset passed inside = absurd (omega arith)
passes_from-at test start (suc count) zero passed inside =
    let e : start + 0 ≡ start = omega arith in rw e (conjuncts _ _ passed).0
passes_from-at test start (suc count) (suc offset) passed inside =
    let e : start + suc offset ≡ suc start + offset = omega arith in
    rw e (passes_from-at test (suc start) count offset (conjuncts _ _ passed).1 (omega arith))

pub passes_from-below :
    (test : ℕ → Bool) (count x : ℕ) → passes_from test 0 count ≡ true → x < count → test x ≡ true
passes_from-below test count x passed inside =
    let e : 0 + x ≡ x = omega arith in
    subst (λ k. test k ≡ true) e (passes_from-at test 0 count x passed inside)
