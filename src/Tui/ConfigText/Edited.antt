-- ===== src/Tui/ConfigText/Edited.antt =====
-- What is read after an edit of the configuration text in vectorguard/src/tui/app.rs.
use vector_guard.Prelude.{
  All, Bool, Bool-cases, List, Option-cases, Text, [], ap, append_assoc, arith, codes, false,
  if◌then◌else◌, inl, inr, is_some, is_whitespace, none, refl, some, split_once, starts_with, subst,
  sym, text_eq, text_eq_refl, trim, trim_end, trim_start, true, ℕ, ◌&&◌, ◌++◌, ◌==◌, ◌||◌, ◌∙◌, ◌∷◌,
  ◌≡◌, ◌≢◌,
}
use vector_guard.Tui.ConfigText.{
  entry_of, extract_lines, indent_of, is_header, line_value, new_line, trim_both, update_lines,
  value_for,
}
use vector_guard.Tui.ConfigText.Trimming.{
  All-append, Spaces, before_hash-id, indent_of-Spaces, split_once-append, trim_end-append,
  trim_end-key, trim_start-append, trim_start-nonspace,
}

-- A key: no white space, no '=' and no '#' in it, and it does not begin a section.
pub record KeyOk (key : Text) : Type 0 where
  pub first : ℕ
  pub others : Text
  pub split : key ≡ first ∷ others
  pub no_bracket : (first == b'[') ≡ false
  pub plain : All (λ c. (is_whitespace c || c == b'=' || c == b'#') ≡ false) key

-- A value: not empty, no '#' in it, and no white space at its ends.
pub record ValueOk (value : Text) : Type 0 where
  pub nonempty : value ≢ []
  pub no_hash : All (λ c. (c == b'#') ≡ false) value
  pub start : trim_start value ≡ value
  pub stop : trim_end value ≡ value

module _ (key value : Text) (ko : KeyOk key) (vo : ValueOk value) where
  abbrev pair : Text
  pair = key ++ (codes " = " ++ value)

  weaken :
      {P : ℕ → Type 0} (f : (c : ℕ) → (is_whitespace c || c == b'=' || c == b'#') ≡ false → P c)
      (s : Text)
      → All (λ c. (is_whitespace c || c == b'=' || c == b'#') ≡ false) s
      → All P s
  weaken f [] h = tt
  weaken f (c ∷ s) h = (f c h.0, weaken f s h.1)

  no_space : All (λ c. is_whitespace c ≡ false) key
  no_space = weaken (λ c e. ground arith) key ko.plain

  no_eq : All (λ c. (c == b'=') ≡ false) key
  no_eq = weaken (λ c e. ground arith) key ko.plain

  no_hash_key : All (λ c. (c == b'#') ≡ false) key
  no_hash_key = weaken (λ c e. ground arith) key ko.plain

  -- A text that begins with the key is not shortened at its beginning.
  trim_start-key : (s : Text) → trim_start (key ++ s) ≡ key ++ s
  trim_start-key s =
      subst (λ k. All (λ c. is_whitespace c ≡ false) k → trim_start (k ++ s) ≡ k ++ s)
        (sym ko.split) (λ h. trim_start-nonspace ko.first (ko.others ++ s) h.0) no_space

  trim-pair : (a : Text) → Spaces a → trim (a ++ pair) ≡ pair
  unfolding trim
  trim-pair a h =
      ap trim_end (trim_start-append a pair h ∙ trim_start-key (codes " = " ++ value))
      ∙ ap trim_end (sym (append_assoc key (codes " = ") value))
      ∙ trim_end-append (key ++ codes " = ") value vo.nonempty vo.stop
      ∙ append_assoc key (codes " = ") value

  hash_free : All (λ c. (c == b'#') ≡ false) pair
  hash_free = All-append _ key (codes " = " ++ value) no_hash_key (refl, (refl, (refl, vo.no_hash)))

  key_and_blank : trim (key ++ 32 ∷ []) ≡ key
  unfolding trim
  key_and_blank = ap trim_end (trim_start-key (32 ∷ [])) ∙ trim_end-key key no_space

  blank_and_value : trim (32 ∷ value) ≡ value
  unfolding trim trim_start
  blank_and_value = ap trim_end vo.start ∙ vo.stop

  entry_of-pair : entry_of pair ≡ some (key, value)
  unfolding entry_of
  entry_of-pair =
      ap (λ t. trim_both (split_once b'=' (trim t))) (before_hash-id pair hash_free)
      ∙ ap (λ t. trim_both (split_once b'=' t)) (trim-pair [] tt)
      ∙ ap (λ t. trim_both (split_once b'=' t))
          (sym (append_assoc key (32 ∷ []) (b'=' ∷ (32 ∷ value))))
      ∙ ap trim_both (
          split_once-append (key ++ 32 ∷ []) (32 ∷ value)
            (All-append _ key (32 ∷ []) no_eq (refl, tt)))
      ∙ (λ i. some (key_and_blank i, blank_and_value i))

  -- The new line is an entry of the key, with the new value.
  line_value-new_line : (line : Text) → line_value key (new_line key value line) ≡ some value
  line_value-new_line line =
      ap (λ t. value_for key (entry_of t)) (trim-pair (indent_of line) (indent_of-Spaces line))
      ∙ ap (value_for key) entry_of-pair
      ∙ ap (λ b. if b then some value else none) (text_eq_refl key)

  new_line-no_header : (line : Text) → is_header (trim (new_line key value line)) ≡ false
  unfolding starts_with
  new_line-no_header line =
      ap is_header (trim-pair (indent_of line) (indent_of-Spaces line))
      ∙ subst (λ k. is_header (k ++ (codes " = " ++ value)) ≡ false) (sym ko.split)
          (no_header ko.first (ko.others ++ (codes " = " ++ value)) ko.no_bracket)
    where
      no_header : (c : ℕ) (s : Text) → (c == b'[') ≡ false → is_header (c ∷ s) ≡ false
      no_header c s h = rw h refl

-- Some line of the section is an entry of the key.
unfoldable pub has_key : Text → Text → Bool → List Text → Bool
has_key target key in_section [] = false
has_key target key in_section (line ∷ ls) =
    let here = has_key target key in_section ls in
    let there = has_key target key (text_eq (trim line) target) ls in
    if is_header (trim line) then there else (in_section && is_some (line_value key line)) || here

update_lines-replaced :
    (target key value : Text) (b : Bool) (ls : List Text)
    → update_lines target key value b true ls ≡ ls
unfolding update_lines
update_lines-replaced target key value b [] = refl
update_lines-replaced target key value b (line ∷ ls) = elim (Bool-cases (is_header (trim line))) [
  | inl e ↦
      rw e (
        ap (λ l. line ∷ l) (update_lines-replaced target key value (text_eq (trim line) target) ls))
  | inr e ↦ rw e (
      kept b (is_some (line_value key line)) _ _
      ∙ ap (λ l. line ∷ l) (update_lines-replaced target key value b ls))
]
  where
    kept : (b z : Bool) (x y : List Text) → (if b && false && z then x else y) ≡ y
    kept true z x y = refl
    kept false z x y = refl

-- In the lines of a text, the value of a key that stands in its section is, after the edit, the new
-- one.
pub extract_lines-update_lines :
    (target key value : Text) (b : Bool) (ls : List Text)
    → KeyOk key
    → ValueOk value
    → has_key target key b ls ≡ true
    → extract_lines target key b (update_lines target key value b false ls) ≡ value
unfolding extract_lines update_lines has_key
extract_lines-update_lines target key value b [] ko vo h = cc
extract_lines-update_lines target key value false (line ∷ ls) ko vo h =
    elim (Bool-cases (is_header (trim line))) [
      | inl e ↦
          rw (e, e)
            (extract_lines-update_lines target key value (text_eq (trim line) target) ls ko vo
              (rw e at h))
      | inr e ↦ rw (e, e) (extract_lines-update_lines target key value false ls ko vo (rw e at h))
    ]
extract_lines-update_lines target key value true (line ∷ ls) ko vo h =
    elim (Bool-cases (is_header (trim line))) [
      | inl e ↦
          rw (e, e)
            (extract_lines-update_lines target key value (text_eq (trim line) target) ls ko vo
              (rw e at h))
      | inr e ↦ elim (Option-cases (line_value key line)) [
        | inl q ↦
            rw (e, q, e, q)
              (extract_lines-update_lines target key value true ls ko vo (rw (e, q) at h))
        | inr (v, q) ↦
            rw
              (
                e,
                q,
                new_line-no_header key value ko vo line,
                line_value-new_line key value ko vo line,
              )
              refl
      ]
    ]
