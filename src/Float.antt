-- ===== src/Float.antt =====
-- 32-bit floats: a type with the operations that the program uses. No law of theirs is assumed.
use vector_guard.Prelude.{Bool, ltb, ℕ, ◌*◌, ◌+◌, ◌-◌, ◌/◌}

pub record Float : Type 1 where
  pub F : Type 0
  pub zero_f : F
  pub one : F
  -- `alpha = 0.7` of `blend`, and the threshold `1e-9` below which nothing is divided
  pub alpha : F
  pub tiny : F
  pub add : F → F → F
  pub sub : F → F → F
  pub mul : F → F → F
  pub div : F → F → F
  pub sqrt : F → F
  pub lt : F → F → Bool
  -- `n as f32`
  pub of_ℕ : ℕ → F

-- Whole numbers, for tests.
abbrev pub whole : Float
whole = record {
  F = ℕ;
  zero_f = 0;
  one = 1;
  alpha = 1;
  tiny = 0;
  add = ◌+◌;
  sub = ◌-◌;
  mul = ◌*◌;
  div = ◌/◌;
  sqrt = λ x. x;
  lt = ltb;
  of_ℕ = λ n. n;
}
