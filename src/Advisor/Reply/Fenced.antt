-- ===== src/Advisor/Reply/Fenced.antt =====
-- What `extract_toml` finds in a reply.
use vector_guard.Prelude.{
  All, Clean, List, Text, [], ap, append-nil, codes, contains, false, if◌then◌else◌, is_empty,
  lines, lines-append, refl, text_eq, trim, true, unless, when, ℕ, ◌&&◌, ◌++◌, ◌∙◌, ◌∷◌, ◌≡◌,
}
use vector_guard.Advisor.Reply.{unlines, fence, opens_block, block_lines, extract_toml}

-- No line opens a block, and no line closes one.
abbrev pub Outside : List Text → Type 0
Outside = All (λ l. opens_block l ≡ false)

abbrev pub Inside : List Text → Type 0
Inside = All (λ l. text_eq (trim l) fence ≡ false)

skipped_lines :
    (ls rest : List Text) → Outside ls → block_lines false (ls ++ rest) ≡ block_lines false rest
unfolding block_lines
skipped_lines [] rest h = refl
skipped_lines (l ∷ ls) rest h = unless _ _ _ h.0 ∙ skipped_lines ls rest h.1

kept_lines :
    (ls rest : List Text) → Inside ls → block_lines true (ls ++ rest) ≡ ls ++ block_lines true rest
unfolding block_lines
kept_lines [] rest h = refl
kept_lines (l ∷ ls) rest h = unless _ _ _ h.0 ∙ ap (λ r. l ∷ r) (kept_lines ls rest h.1)

nothing_outside : (ls : List Text) → Outside ls → block_lines false ls ≡ []
unfolding block_lines
nothing_outside [] h = refl
nothing_outside (l ∷ ls) h = unless _ _ _ h.0 ∙ nothing_outside ls h.1

opened :
    (line : Text) (ls : List Text)
    → opens_block line ≡ true
    → block_lines false (line ∷ ls) ≡ block_lines true ls
unfolding block_lines
opened line ls h = when _ _ _ h

closed :
    (line : Text) (ls : List Text)
    → text_eq (trim line) fence ≡ true
    → block_lines true (line ∷ ls) ≡ block_lines false ls
unfolding block_lines
closed line ls h = when _ _ _ h

lines-unlines : (ls : List Text) → All Clean ls → lines (unlines ls) ≡ ls
unfolding lines
lines-unlines [] h = refl
lines-unlines (l ∷ ls) h = lines-append l (unlines ls) h.0 ∙ ap (λ r. l ∷ r) (lines-unlines ls h.1)

is_empty-snoc : (s : Text) (c : ℕ) (t : Text) → is_empty (s ++ c ∷ t) ≡ false
is_empty-snoc [] c t = refl
is_empty-snoc (d ∷ s) c t = refl

-- A reply that has one fenced block gives exactly the lines of the block, whatever is said before and
-- after it. Conditions: the block has a line; before and after it no line opens a block, within it no
-- line closes it; the lines are free of line feeds and carriage returns.
pub extract_toml-fenced :
    (before block after : List Text) (first opening closing : Text)
    → Outside before
    → opens_block opening ≡ true
    → Inside (first ∷ block)
    → text_eq (trim closing) fence ≡ true
    → Outside after
    → All Clean (before ++ opening ∷ ((first ∷ block) ++ closing ∷ after))
    → extract_toml (unlines (before ++ opening ∷ ((first ∷ block) ++ closing ∷ after)))
      ≡ unlines (first ∷ block)
unfolding extract_toml
extract_toml-fenced before block after first opening closing b o i c a clean =
    let ls = before ++ opening ∷ ((first ∷ block) ++ closing ∷ after) in
    let kept : block_lines false (lines (unlines ls)) ≡ first ∷ block =
      ap (block_lines false) (lines-unlines ls clean)
      ∙ skipped_lines before (opening ∷ ((first ∷ block) ++ closing ∷ after)) b
      ∙ opened opening ((first ∷ block) ++ closing ∷ after) o
      ∙ kept_lines (first ∷ block) (closing ∷ after) i
      ∙ ap (λ r. (first ∷ block) ++ r) (closed closing after c ∙ nothing_outside after a)
      ∙ append-nil (first ∷ block) in
    ap
      (λ bl.
        if is_empty (unlines bl) && contains (unlines ls) (codes "[[rules]]")
        then unlines ls
        else unlines bl)
      kept
    ∙ ap
        (λ e.
          if e && contains (unlines ls) (codes "[[rules]]")
          then unlines ls
          else unlines (first ∷ block))
        (is_empty-snoc first 10 (unlines block))
