-- ===== src/Prelude/TextLines.antt =====
-- `str::lines`, and the lines of a text that is put together from lines.
use Prim.Native.Nat.{ℕ}
use mathlib.Core.Path.{◌≡◌, refl, ap, ◌∙◌}
use mathlib.Core.Bool.{false, ◌&&◌, ◌||◌}
use mathlib.Core.List.{List, [], ◌∷◌, ◌++◌}
use native.Mathlib.Omega.{arith}
use vector_guard.Prelude.Lists.{All}
use vector_guard.Prelude.Tests.{◌==◌, if◌then◌else◌}
use vector_guard.Prelude.Texts.{Text, starts_with}

-- `str::lines`: a line feed ends a line, and a carriage return before it is dropped.
abbrev pub cons_first : ℕ → List Text → List Text
cons_first c [] = (c ∷ []) ∷ []
cons_first c (l ∷ ls) = (c ∷ l) ∷ ls

unfoldable pub lines : Text → List Text
lines [] = []
lines (c ∷ s) =
    let rest = lines s in
    if c == 10
    then [] ∷ rest
    else if c == 13 && starts_with s (10 ∷ [])
    then rest
    else cons_first c rest

-- `join("\n")`
unfoldable pub join_lines : List Text → Text
join_lines [] = []
join_lines (l ∷ []) = l
join_lines (l ∷ m ∷ ls) = l ++ (10 ∷ join_lines (m ∷ ls))

-- Neither a line feed nor a carriage return.
abbrev pub Clean : Text → Type 0
Clean s = All (λ c. (c == 10 || c == 13) ≡ false) s

pub lines-append : (l s : Text) → Clean l → lines (l ++ (10 ∷ s)) ≡ l ∷ lines s
unfolding lines
lines-append [] s h = refl
lines-append (c ∷ l) s h =
    let a : (c == 10) ≡ false = ground arith in
    let b : (c == 13) ≡ false = ground arith in rw (a, b, lines-append l s h.1) refl

pub lines-one : (c : ℕ) (l : Text) → Clean (c ∷ l) → lines (c ∷ l) ≡ (c ∷ l) ∷ []
unfolding lines
lines-one c [] h =
    let a : (c == 10) ≡ false = ground arith in
    let b : (c == 13) ≡ false = ground arith in rw (a, b) refl
lines-one c (d ∷ l) h =
    let a : (c == 10) ≡ false = ground arith in
    let b : (c == 13) ≡ false = ground arith in
    ap
      (λ r.
        if c == 10
        then [] ∷ r
        else if c == 13 && starts_with (d ∷ l) (10 ∷ [])
        then r
        else cons_first c r)
      (lines-one d l h.1)
    ∙ rw (a, b) refl
