-- ===== src/Prelude/Utf8.antt =====
-- `str::as_bytes`: the UTF-8 encoding of the characters of a text; and `str::from_utf8`.
use Prim.Native.Nat.{ℕ, zero, suc, ◌+◌, ◌-◌, ◌*◌, ◌/◌, ◌%◌, ◌<◌, ◌≤◌}
use mathlib.Core.List.{List, [], ◌∷◌, ◌++◌}
use mathlib.Core.Path.{◌≡◌, refl, ap, ◌∙◌}
use mathlib.Core.Logic.{inl, inr}
use mathlib.Core.Bool.{Bool, true, ◌&&◌, ◌||◌}
use mathlib.Core.Option.{Option, none, some}
use native.Mathlib.Omega.{arith}
use vector_guard.Prelude.Tests.{Bool-cases, ltb, leb, ◌==◌, if◌then◌else◌, map_opt}
use vector_guard.Prelude.Lists.{All}
use vector_guard.Prelude.Texts.{Text}

unfoldable pub encode_char : ℕ → List ℕ
encode_char c =
    if ltb c 0x80
    then c ∷ []
    else if ltb c 0x800
    then (0xc0 + c / 64) ∷ (0x80 + c % 64) ∷ []
    else if ltb c 0x10000
    then (0xe0 + c / 4096) ∷ (0x80 + c / 64 % 64) ∷ (0x80 + c % 64) ∷ []
    else (0xf0 + c / 262144) ∷ (0x80 + c / 4096 % 64) ∷ (0x80 + c / 64 % 64) ∷ (0x80 + c % 64) ∷ []

unfoldable pub utf8 : Text → List ℕ
unfolding encode_char
utf8 [] = []
utf8 (c ∷ s) = encode_char c ++ utf8 s

-- A Rust `char`: a code point that is no surrogate.
abbrev pub is_scalar : ℕ → Bool
is_scalar c = ltb c 0xd800 || (leb 0xe000 c && ltb c 0x110000)

-- One byte read: a malformed byte, the end of a character, or `need` bytes still wanted, the next
-- of them between `lo` and `hi`.
pub data Utf8Step : Type 0 where
  bad : Utf8Step
  char : ℕ → Utf8Step
  more : ℕ → ℕ → ℕ → ℕ → Utf8Step

unfoldable pub start_byte : ℕ → Utf8Step
start_byte b =
    if ltb b 0x80
    then char b
    else if leb 0xc2 b && leb b 0xdf
    then more 1 (b - 0xc0) 0x80 0xbf
    else if b == 0xe0
    then more 2 0 0xa0 0xbf
    else if leb 0xe1 b && leb b 0xef
    then more 2 (b - 0xe0) 0x80 (if b == 0xed then 0x9f else 0xbf)
    else if b == 0xf0
    then more 3 0 0x90 0xbf
    else if leb 0xf1 b && leb b 0xf3
    then more 3 (b - 0xf0) 0x80 0xbf
    else if b == 0xf4
    then more 3 4 0x80 0x8f
    else bad

unfoldable pub next_byte : ℕ → ℕ → ℕ → ℕ → ℕ → Utf8Step
unfolding start_byte
next_byte zero acc lo hi b = start_byte b
next_byte (suc zero) acc lo hi b =
    if leb lo b && leb b hi then char (acc * 64 + (b - 0x80)) else bad
next_byte (suc (suc n)) acc lo hi b =
    if leb lo b && leb b hi then more (suc n) (acc * 64 + (b - 0x80)) 0x80 0xbf else bad

unfoldable pub decode_from : ℕ → ℕ → ℕ → ℕ → List ℕ → Option Text
unfolding next_byte
decode_from need acc lo hi [] = if need == 0 then some [] else none
decode_from need acc lo hi (b ∷ bs) = elim (next_byte need acc lo hi b) [
  | bad ↦ none
  | char c ↦ map_opt (λ s. c ∷ s) (decode_from 0 0 0 0 bs)
  | more n a l h ↦ decode_from n a l h bs
]

-- `str::from_utf8(bytes).ok()`
unfoldable pub from_utf8 : List ℕ → Option Text
unfolding decode_from
from_utf8 bytes = decode_from 0 0 0 0 bytes

module _ (c : ℕ) (rest : List ℕ) where
  abbrev Decodes : Type 0
  Decodes = from_utf8 (encode_char c ++ rest) ≡ map_opt (λ s. c ∷ s) (from_utf8 rest)

  one_byte : c < 0x80 → Decodes
  unfolding encode_char from_utf8
  one_byte h = ground arith

  two_bytes : 0x80 ≤ c → c < 0x800 → Decodes
  unfolding encode_char from_utf8
  two_bytes h k = ground arith

  three_bytes : 0x800 ≤ c → c < 0x10000 → is_scalar c ≡ true → Decodes
  unfolding encode_char from_utf8
  three_bytes h k s = ground arith

  four_bytes : 0x10000 ≤ c → is_scalar c ≡ true → Decodes
  unfolding encode_char from_utf8
  four_bytes h s = ground arith

  decodes : is_scalar c ≡ true → Decodes
  decodes s = elim (Bool-cases (ltb c 0x80)) [
    | inl h ↦ one_byte (ground arith)
    | inr h ↦ elim (Bool-cases (ltb c 0x800)) [
      | inl k ↦ two_bytes (ground arith) (ground arith)
      | inr k ↦ elim (Bool-cases (ltb c 0x10000)) [
        | inl l ↦ three_bytes (ground arith) (ground arith) s
        | inr l ↦ four_bytes (ground arith) s
      ]
    ]
  ]

-- Decoding the bytes of a text gives the text back.
pub from_utf8-utf8 : (s : Text) → All (λ c. is_scalar c ≡ true) s → from_utf8 (utf8 s) ≡ some s
unfolding utf8
from_utf8-utf8 [] h = unfold from_utf8 in refl
from_utf8-utf8 (c ∷ s) h = decodes c (utf8 s) h.0 ∙ ap (map_opt (λ t. c ∷ t)) (from_utf8-utf8 s h.1)
