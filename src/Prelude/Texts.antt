-- ===== src/Prelude/Texts.antt =====
-- Rust's `str` as the list of its characters (Unicode scalar values), with the comparison and the
-- prefix test of the standard library.
use Prim.Native.Nat.{ℕ}
use Prim.Native.Char.{code}
use Prim.Native.String.{String}
use mathlib.Core.Path.{◌≡◌, refl, sym, subst}
use mathlib.Core.Logic.{◌↔◌}
use mathlib.Core.Bool.{Bool, true, false, ◌&&◌, ◌||◌}
use mathlib.Core.List.{List, [], ◌∷◌, ◌++◌}
use mathlib.Core.Option.{Option, none, some}
use native.Mathlib.Omega.{arith}
use vector_guard.Prelude.Lists.{is_empty}
use vector_guard.Prelude.Tests.{◌==◌, leb, if◌then◌else◌, map_opt}

abbrev pub Text : Type 0
Text = List ℕ

-- A literal, as its characters.
abbrev pub codes : String → Text
codes String.[] = []
codes (String.◌∷◌ c s) = code c ∷ codes s

unfoldable pub text_eq : Text → Text → Bool
text_eq [] [] = true
text_eq (a ∷ s) (b ∷ t) = (a == b) && text_eq s t
text_eq _ _ = false

pub text_eq_refl : (s : Text) → text_eq s s ≡ true
unfolding text_eq
text_eq_refl [] = refl
text_eq_refl (a ∷ s) = ground (arith, text_eq_refl s)

text_eq→eq : (s t : Text) → text_eq s t ≡ true → s ≡ t
unfolding text_eq
text_eq→eq [] [] h = refl
text_eq→eq [] (b ∷ t) h = cc
text_eq→eq (a ∷ s) [] h = cc
text_eq→eq (a ∷ s) (b ∷ t) h = ground (arith, text_eq→eq s t)

pub text_eq_iff : (s t : Text) → (text_eq s t ≡ true) ↔ (s ≡ t)
text_eq_iff s t = (text_eq→eq s t, λ e. subst (λ u. text_eq s u ≡ true) e (text_eq_refl s))

-- `path.starts_with(prefix)`: the text first, the prefix second.
unfoldable pub starts_with : Text → Text → Bool
starts_with s [] = true
starts_with [] (b ∷ p) = false
starts_with (a ∷ s) (b ∷ p) = (a == b) && starts_with s p

starts_with→append : (s p : Text) → starts_with s p ≡ true → (rest : Text) × (s ≡ p ++ rest)
unfolding starts_with
starts_with→append s [] h = (s, refl)
starts_with→append [] (b ∷ p) h = cc
starts_with→append (a ∷ s) (b ∷ p) h =
    let (rest, e) = starts_with→append s p (ground arith) in
    let q : a ≡ b = ground arith in (rest, cc)

append→starts_with : (p rest : Text) → starts_with (p ++ rest) p ≡ true
unfolding starts_with
append→starts_with [] rest = refl
append→starts_with (b ∷ p) rest = ground (arith, append→starts_with p rest)

pub starts_with_iff : (s p : Text) → (starts_with s p ≡ true) ↔ ((rest : Text) × (s ≡ p ++ rest))
starts_with_iff s p = (
  starts_with→append s p,
  λ (rest, e). subst (λ u. starts_with u p ≡ true) (sym e) (append→starts_with p rest),
)

-- `char::is_whitespace`: the characters with the property White_Space.
abbrev pub is_whitespace : ℕ → Bool
is_whitespace c =
    (leb 9 c && leb c 13)
    || c == 32
    || c == 0x85
    || c == 0xa0
    || c == 0x1680
    || (leb 0x2000 c && leb c 0x200a)
    || c == 0x2028
    || c == 0x2029
    || c == 0x202f
    || c == 0x205f
    || c == 0x3000

unfoldable pub trim_start : Text → Text
trim_start [] = []
trim_start (c ∷ s) = let rest = trim_start s in if is_whitespace c then rest else c ∷ s

unfoldable pub trim_end : Text → Text
trim_end [] = []
trim_end (c ∷ s) =
    let rest = trim_end s in if is_empty rest && is_whitespace c then [] else c ∷ rest

-- `s.trim()`
unfoldable pub trim : Text → Text
unfolding trim_start trim_end
trim s = trim_end (trim_start s)

-- `s.split_once(c)`: what stands before and after the first `c`.
unfoldable pub split_once : ℕ → Text → Option (Text × Text)
split_once c [] = none
split_once c (a ∷ s) =
    let rest = split_once c s in
    if a == c then some ([], s) else map_opt (λ (k, v). (a ∷ k, v)) rest

-- `s.trim_matches('"')`
unfoldable pub trim_quotes_start : Text → Text
trim_quotes_start [] = []
trim_quotes_start (c ∷ s) = let rest = trim_quotes_start s in if c == 34 then rest else c ∷ s

unfoldable pub trim_quotes_end : Text → Text
trim_quotes_end [] = []
trim_quotes_end (c ∷ s) =
    let rest = trim_quotes_end s in if is_empty rest && c == 34 then [] else c ∷ rest

unfoldable pub trim_quotes : Text → Text
unfolding trim_quotes_start trim_quotes_end
trim_quotes s = trim_quotes_end (trim_quotes_start s)

-- `s.contains(pattern)`
abbrev pub contains : Text → Text → Bool
contains [] pattern = is_empty pattern
contains (c ∷ s) pattern = let rest = contains s pattern in starts_with (c ∷ s) pattern || rest
