-- ===== src/Prelude.antt =====
-- The names that the other modules share: the libraries', passed on, and those of the children.
mod Tests
mod Lists
mod Texts
mod TextLines
mod Assoc
mod Utf8
mod Decimal
pub use Tests.*
pub use Lists.*
pub use Texts.{Text, codes, contains, is_whitespace, text_eq_iff, text_eq_refl, starts_with_iff}
unfoldable pub use Texts.{text_eq, starts_with, trim_start, trim_end, trim, split_once, trim_quotes}
pub use TextLines.{cons_first, Clean, lines-append, lines-one}
unfoldable pub use TextLines.{lines, join_lines}
pub use Assoc.{lookup-insert, lookup-remove}
unfoldable pub use Assoc.{lookup, insert, remove}
pub use Decimal.{value_of, value_of-show_nat, show_nat-injective}
unfoldable pub use Decimal.{show_nat}
unfoldable pub use Utf8.{encode_char, utf8, from_utf8}
pub use Utf8.{is_scalar, from_utf8-utf8}
pub use Prim.Native.Nat.{
  ℕ, zero, suc, ◌+◌, ◌-◌, ◌*◌, ◌/◌, ◌%◌, ◌^◌, ◌≤◌, ◌<◌, min, max, compare, Ordering,
}
pub use Prim.Native.String.{String}
pub use mathlib.Core.Path.{◌≡◌, refl, sym, ap, ap₂, ◌∙◌, subst, fun_ext}
pub use mathlib.Core.Logic.{◌≢◌, ◌↔◌, ◌⊎◌, inl, inr}
pub use mathlib.Core.Bool.{Bool, true, false, not, ◌&&◌, ◌||◌, false≢true}
pub use mathlib.Core.Option.{Option, none, some}
pub use mathlib.Core.List.{List, [], ◌∷◌, ◌++◌, map, append-nil, append_assoc, foldl, reverse}
pub use native.Mathlib.Omega.{arith}
