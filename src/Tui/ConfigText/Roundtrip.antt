-- ===== src/Tui/ConfigText/Roundtrip.antt =====
-- From the lines to the text: `update_toml_value` and then `extract_toml_value` of
-- vectorguard/src/tui/app.rs.
use vector_guard.Prelude.{
  All, Bool, Bool-cases, Clean, List, Text, [], ap, ap₂, arith, cons_first, false, if◌then◌else◌,
  inl, inr, is_some, is_whitespace, join_lines, lines, lines-append, lines-one, not, refl,
  split_once, starts_with, sym, text_eq, trim, true, unwrap_or, ◌&&◌, ◌++◌, ◌==◌, ◌||◌, ◌∙◌, ◌∷◌,
  ◌≡◌,
}
use vector_guard.Tui.ConfigText.{
  extract_lines, extract_toml_value, indent_of, is_header, line_value, new_line, target_of,
  update_lines, update_toml_value, entry_of, before_hash,
}
use vector_guard.Tui.ConfigText.Edited.{KeyOk, ValueOk, extract_lines-update_lines, has_key}

-- No carriage return.
abbrev pub UnixText : Text → Type 0
UnixText s = All (λ c. (c == 13) ≡ false) s

lines-Clean : (s : Text) → UnixText s → All Clean (lines s)
unfolding lines
lines-Clean [] h = tt
lines-Clean (c ∷ s) h = elim (Bool-cases (c == 10)) [
  | inl e ↦ rw e (tt, lines-Clean s h.1)
  | inr e ↦ rw (e, h.0) (into_first (lines s) (lines-Clean s h.1) (ground arith))
]
  where
    into_first :
        (ls : List Text) → All Clean ls → (c == 10 || c == 13) ≡ false → All Clean (cons_first c ls)
    into_first [] a n = ((n, tt), tt)
    into_first (l ∷ ls) a n = ((n, a.0), a.1)

no_lines : (target key : Text) (b : Bool) → extract_lines target key b (lines []) ≡ []
unfolding extract_lines lines
no_lines target key b = refl

blank_line : (target key : Text) (b : Bool) → extract_lines target key b ([] ∷ []) ≡ []
unfolding extract_lines starts_with trim entry_of before_hash split_once
blank_line target key true = refl
blank_line target key false = refl

-- Joining lines and splitting the text again changes nothing that is read.
extract_lines-join_lines :
    (target key : Text) (b : Bool) (ls : List Text)
    → All Clean ls
    → extract_lines target key b (lines (join_lines ls)) ≡ extract_lines target key b ls
unfolding join_lines extract_lines
extract_lines-join_lines target key b [] h = no_lines target key b
extract_lines-join_lines target key b ([] ∷ []) h =
    no_lines target key b ∙ sym (blank_line target key b)
extract_lines-join_lines target key b ((c ∷ l) ∷ []) h =
    ap (extract_lines target key b) (lines-one c l h.0)
extract_lines-join_lines target key b (l ∷ m ∷ ls) h =
    ap (extract_lines target key b) (lines-append l (join_lines (m ∷ ls)) h.0)
    ∙ ap₂
        (λ here there.
          if is_header (trim l)
          then there
          else if not b
          then here
          else unwrap_or (line_value key l) here)
        (extract_lines-join_lines target key b (m ∷ ls) h.1)
        (extract_lines-join_lines target key (text_eq (trim l) target) (m ∷ ls) h.1)

Clean-append : (a s : Text) → Clean a → Clean s → Clean (a ++ s)
Clean-append [] s h k = k
Clean-append (c ∷ a) s h k = (h.0, Clean-append a s h.1 k)

indent_of-Clean : (s : Text) → Clean s → Clean (indent_of s)
unfolding indent_of
indent_of-Clean [] h = tt
indent_of-Clean (c ∷ s) h = elim (Bool-cases (is_whitespace c)) [
  | inl e ↦ rw e (h.0, indent_of-Clean s h.1)
  | inr e ↦ rw e tt
]

key-Clean :
    (key : Text) → All (λ c. (is_whitespace c || c == b'=' || c == b'#') ≡ false) key → Clean key
key-Clean [] h = tt
key-Clean (c ∷ key) h = (ground arith, key-Clean key h.1)

update_lines-Clean :
    (target key value : Text) (b r : Bool) (ls : List Text)
    → KeyOk key
    → Clean value
    → All Clean ls
    → All Clean (update_lines target key value b r ls)
unfolding update_lines
update_lines-Clean target key value b r [] ko v h = tt
update_lines-Clean target key value b r (line ∷ ls) ko v h =
    go (is_header (trim line)) (b && not r && is_some (line_value key line))
      (update_lines-Clean target key value (text_eq (trim line) target) r ls ko v h.1)
      (update_lines-Clean target key value b true ls ko v h.1)
      (update_lines-Clean target key value b r ls ko v h.1)
  where
    edited : Clean (new_line key value line)
    edited =
        Clean-append (indent_of line) _ (indent_of-Clean line h.0)
          (Clean-append key _ (key-Clean key ko.plain) (refl, (refl, (refl, v))))

    go :
        (x y : Bool)
        → All Clean (update_lines target key value (text_eq (trim line) target) r ls)
        → All Clean (update_lines target key value b true ls)
        → All Clean (update_lines target key value b r ls)
        → All Clean (
            if x
            then line ∷ update_lines target key value (text_eq (trim line) target) r ls
            else if y
            then new_line key value line ∷ update_lines target key value b true ls
            else line ∷ update_lines target key value b r ls)
    go true y p q s = (h.0, p)
    go false true p q s = (edited, q)
    go false false p q s = (h.0, s)

-- In a text without carriage returns, the value that is read for a key after it was set is the new
-- value, where the key stands in its section of the text. The key has no white space, no '=' and no
-- '#', and does not begin with a bracket; the value is not empty, is one line without '#', and has no
-- white space at its ends.
pub extract_toml_value-update_toml_value :
    (text section key value : Text)
    → UnixText text
    → KeyOk key
    → ValueOk value
    → Clean value
    → has_key (target_of section) key false (lines text) ≡ true
    → extract_toml_value (update_toml_value text section key value) section key ≡ value
unfolding extract_toml_value update_toml_value
extract_toml_value-update_toml_value text section key value unix ko vo clean present =
    extract_lines-join_lines (target_of section) key false _ (
      update_lines-Clean (target_of section) key value false false (lines text) ko clean
        (lines-Clean text unix))
    ∙ extract_lines-update_lines (target_of section) key value false (lines text) ko vo present
