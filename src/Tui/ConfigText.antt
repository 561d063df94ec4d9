-- ===== src/Tui/ConfigText.antt =====
-- The configuration editor of vectorguard/src/tui/app.rs: reading and replacing one value in the text
-- of the configuration file.
pub mod Trimming
pub mod Edited
pub mod Roundtrip
use vector_guard.Prelude.{
  Bool, List, Option, Text, [], codes, false, if◌then◌else◌, is_some, is_whitespace, join_lines,
  lines, none, not, some, split_once, starts_with, text_eq, trim, true, unwrap_or, ◌&&◌, ◌++◌, ◌==◌,
  ◌∷◌,
}

-- `s.split('#').next()`
unfoldable pub before_hash : Text → Text
before_hash [] = []
before_hash (c ∷ s) = let rest = before_hash s in if c == b'#' then [] else c ∷ rest

-- The white space that `trim_start` drops from a line.
unfoldable pub indent_of : Text → Text
indent_of [] = []
indent_of (c ∷ s) = let rest = indent_of s in if is_whitespace c then c ∷ rest else []

-- `trimmed.starts_with('[') && !trimmed.starts_with("[[")`
abbrev pub is_header : Text → Bool
is_header t = starts_with t (b'[' ∷ []) && not (starts_with t (b'[' ∷ b'[' ∷ []))

abbrev pub target_of : Text → Text
target_of section = b'[' ∷ (section ++ b']' ∷ [])

-- The key and the value of a trimmed line.
abbrev pub trim_both : Option (Text × Text) → Option (Text × Text)
trim_both none = none
trim_both (some (k, v)) = some (trim k, trim v)

unfoldable pub entry_of : Text → Option (Text × Text)
entry_of trimmed = trim_both (split_once b'=' (trim (before_hash trimmed)))

-- The value, if the entry is the one of the key.
abbrev pub value_for : Text → Option (Text × Text) → Option Text
value_for key none = none
value_for key (some (k, v)) = if text_eq k key then some v else none

abbrev pub line_value : Text → Text → Option Text
line_value key line = value_for key (entry_of (trim line))

-- The loop of `extract_toml_value`: `in_section` tells whether the lines stand in the section.
unfoldable pub extract_lines : Text → Text → Bool → List Text → Text
extract_lines target key in_section [] = []
extract_lines target key in_section (line ∷ ls) =
    let here = extract_lines target key in_section ls in
    let there = extract_lines target key (text_eq (trim line) target) ls in
    if is_header (trim line)
    then there
    else if not in_section
    then here
    else unwrap_or (line_value key line) here

-- `extract_toml_value`
unfoldable pub extract_toml_value : Text → Text → Text → Text
unfolding extract_lines lines
extract_toml_value text section key = extract_lines (target_of section) key false (lines text)

abbrev pub new_line : Text → Text → Text → Text
new_line key new_val line = indent_of line ++ (key ++ (codes " = " ++ new_val))

-- The loop of `update_toml_value`, with its two flags.
unfoldable pub update_lines : Text → Text → Text → Bool → Bool → List Text → List Text
update_lines target key new_val in_section replaced [] = []
update_lines target key new_val in_section replaced (line ∷ ls) =
    let here = update_lines target key new_val in_section replaced ls in
    let there = update_lines target key new_val (text_eq (trim line) target) replaced ls in
    let done = update_lines target key new_val in_section true ls in
    if is_header (trim line)
    then line ∷ there
    else if in_section && not replaced && is_some (line_value key line)
    then new_line key new_val line ∷ done
    else line ∷ here

-- `update_toml_value`
unfoldable pub update_toml_value : Text → Text → Text → Text → Text
unfolding update_lines lines join_lines
update_toml_value text section key new_val =
    join_lines (update_lines (target_of section) key new_val false false (lines text))
