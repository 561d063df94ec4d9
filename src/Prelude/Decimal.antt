-- ===== src/Prelude/Decimal.antt =====
-- `u64::to_string`: a number in decimal, and the value of a row of digits.
use Prim.Native.Nat.{ℕ, zero, suc, ◌+◌, ◌-◌, ◌*◌, ◌/◌, ◌%◌, ◌<◌}
use mathlib.Core.Path.{◌≡◌, sym, ap, ◌∙◌}
use mathlib.Core.Logic.{inl, inr}
use mathlib.Core.List.{[], ◌∷◌}
use native.Mathlib.Omega.{arith}
use vector_guard.Prelude.Tests.{Bool-cases, ltb, if◌then◌else◌}
use vector_guard.Prelude.Texts.{Text}

show_from : ℕ → ℕ → Text → Text
show_from zero n acc = acc
show_from (suc fuel) n acc =
    let rest = show_from fuel (n / 10) ((48 + n % 10) ∷ acc) in
    if ltb n 10 then (48 + n) ∷ acc else rest

-- A number has fewer digits than its value plus one.
unfoldable pub show_nat : ℕ → Text
unfolding show_from
show_nat n = show_from (n + 1) n []

value_from : ℕ → Text → ℕ
value_from acc [] = acc
value_from acc (d ∷ ds) = value_from (acc * 10 + (d - 48)) ds

-- The number that a row of digits stands for.
pub value_of : Text → ℕ
unfolding value_from
value_of ds = value_from 0 ds

value_from-show :
    (fuel n : ℕ) (acc : Text) → n < fuel → value_from 0 (show_from fuel n acc) ≡ value_from n acc
unfolding show_from value_from
value_from-show zero n acc h = absurd (omega arith)
value_from-show (suc fuel) n acc h = elim (Bool-cases (ltb n 10)) [
  | inl e ↦ rw e (ap (λ x. value_from x acc) (omega arith))
  | inr e ↦ rw e (
      value_from-show fuel (n / 10) ((48 + n % 10) ∷ acc) (ground arith)
      ∙ ap (λ x. value_from x acc) (omega arith))
]

-- Printing a number and reading the digits gives the number back, so distinct numbers print
-- differently.
pub value_of-show_nat : (n : ℕ) → value_of (show_nat n) ≡ n
unfolding value_of show_nat
value_of-show_nat n = value_from-show (n + 1) n [] (omega arith)

pub show_nat-injective : (m n : ℕ) → show_nat m ≡ show_nat n → m ≡ n
show_nat-injective m n e = sym (value_of-show_nat m) ∙ ap value_of e ∙ value_of-show_nat n
