-- ===== src/Base/Float.antt =====
-- The `f64` arithmetic that the program uses. It is a parameter of the model: a type with the
-- operations, of which the proofs use the one fact that a cast to an unsigned integer saturates.
use Prim.Native.Nat.{ℕ, ◌≤◌, ◌+◌, ◌-◌, ◌*◌, ◌/◌, min}
use native.Mathlib.Omega.{arith}

pub record F64 : Type 1 where
  pub Value : Type 0
  -- `x as f64`
  pub of_ℕ : ℕ → Value
  pub add : Value → Value → Value
  pub sub : Value → Value → Value
  pub mul : Value → Value → Value
  pub div : Value → Value → Value
  -- `v as u64` and the like: truncation, held between 0 and the largest value of the type
  pub to_unsigned : ℕ → Value → ℕ
  pub to_unsigned_le : (largest : ℕ) (v : Value) → to_unsigned largest v ≤ largest

pub min_le_left : (largest v : ℕ) → min largest v ≤ largest
min_le_left largest v = omega arith

-- Whole numbers in place of floats, to run the model.
abbrev pub whole : F64
whole = record {
  Value = ℕ;
  of_ℕ = λ n. n;
  add = λ a b. a + b;
  sub = λ a b. a - b;
  mul = λ a b. a * b;
  div = λ a b. a / b;
  to_unsigned = λ largest v. min largest v;
  to_unsigned_le = min_le_left;
}
