-- ===== src/Tui/Keys/Typing.antt =====
-- What typing makes of the text of a field, against the editor of vectorguard/src/tui/app.rs.
use vector_guard.Prelude.{
  Bool, List, Text, [], ap, arith, codes, false, get_elem?, if◌then◌else◌, inl, inr, length, refl,
  some, suc, take, trim, true, zero, ℕ, ◌++◌, ◌-◌, ◌==◌, ◌∙◌, ◌∷◌, ◌≡◌, ◌≢◌, ◌⊎◌,
}
use vector_guard.Tui.App.{FieldType}
use vector_guard.Tui.App.Editor.{pop_char, raw_value, set_at}
use vector_guard.Tui.Keys.{KeyCode, esc, enter, backspace, char}

-- What a key does to the edited text, as long as it is neither Esc nor Enter.
abbrev pub type_key : Text → KeyCode → Text
type_key b (char c) = b ++ c ∷ []
type_key b backspace = take (length b - 1) b
type_key b _ = b

abbrev pub type_keys : Text → List KeyCode → Text
type_keys b [] = b
type_keys b (k ∷ ks) = type_keys (type_key b k) ks

abbrev pub is_typing : KeyCode → Bool
is_typing esc = false
is_typing enter = false
is_typing _ = true

length_step : (n : ℕ) → suc (suc n - 1) ≡ suc (suc n) - 1
length_step n = omega arith

pub pop_char-take : (b : Text) → pop_char b ≡ take (length b - 1) b
unfolding pop_char
pop_char-take [] = refl
pop_char-take (c ∷ []) = refl
pop_char-take (c ∷ d ∷ b) =
    ap (λ t. c ∷ t) (pop_char-take (d ∷ b)) ∙ ap (λ n. take n (c ∷ d ∷ b)) (length_step (length b))

-- The text `b` as it is written for a field: trimmed, and between quotes exactly for a text field.
abbrev pub Written : FieldType → Text → Text → Type 0
Written t b raw =
    ((t ≡ FieldType.str) × (raw ≡ codes "\"" ++ (trim b ++ codes "\"")))
    ⊎ ((t ≢ FieldType.str) × (raw ≡ trim b))

pub raw_value-Written : (t : FieldType) (b : Text) → Written t b (raw_value t b)
raw_value-Written FieldType.str b = inl (refl, refl)
raw_value-Written FieldType.bool b = inr (λ e. cc, refl)
raw_value-Written FieldType.int b = inr (λ e. cc, refl)
raw_value-Written FieldType.float b = inr (λ e. cc, refl)

pub get_elem?-set_at {ℓ} :
    {A : Type ℓ} (i j : ℕ) (a old : A) (xs : List A)
    → get_elem? xs i ≡ some old
    → get_elem? (set_at i a xs) j ≡ (if i == j then some a else get_elem? xs j)
get_elem?-set_at i j a old [] h = cc
get_elem?-set_at zero zero a old (x ∷ xs) h = refl
get_elem?-set_at zero (suc j) a old (x ∷ xs) h = ground arith
get_elem?-set_at (suc i) zero a old (x ∷ xs) h = ground arith
get_elem?-set_at (suc i) (suc j) a old (x ∷ xs) h = ground (arith, get_elem?-set_at i j a old xs h)
