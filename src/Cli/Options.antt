-- ===== src/Cli/Options.antt =====
-- The option for the configuration's path, in its two spellings.
use vector_guard.Prelude.{
  All, Bool, List, Text, [], ap, codes, drop, false, length, refl, some, starts_with,
  starts_with_iff, suc, sym, text_eq, unless, when, zero, ℕ, ◌++◌, ◌∙◌, ◌∷◌, ◌≡◌,
}
use vector_guard.Cli.{
  Args, add_positional, config_flag, is_config_flag, is_help_flag, no_args, parse_args, parse_loop,
  resolve, set_config, strip_from, trim_start_matches,
}

-- An argument that is no option.
abbrev pub Plain : Text → Type 0
Plain s =
    (is_config_flag s ≡ false) × (starts_with s config_flag ≡ false) × (is_help_flag s ≡ false)

drop-append_length : (p s : Text) → drop (length p) (p ++ s) ≡ s
drop-append_length [] s = refl
drop-append_length (c ∷ p) s = drop-append_length p s

strip-none : (fuel : ℕ) (flag s : Text) → starts_with s flag ≡ false → strip_from fuel flag s ≡ s
unfolding strip_from
strip-none zero flag s h = refl
strip-none (suc fuel) flag s h = unless _ _ _ h

-- One repetition of the option's name is stripped, if the value does not begin with it.
trim_start_matches-append :
    (c : ℕ) (flag s : Text)
    → starts_with s (c ∷ flag) ≡ false
    → trim_start_matches (c ∷ flag) ((c ∷ flag) ++ s) ≡ s
unfolding trim_start_matches strip_from
trim_start_matches-append c flag s h =
    when _ _ _ ((starts_with_iff ((c ∷ flag) ++ s) (c ∷ flag)).1 (s, refl))
    ∙ ap (strip_from (length (flag ++ s)) (c ∷ flag)) (drop-append_length flag s)
    ∙ strip-none (length (flag ++ s)) (c ∷ flag) s h

parse_loop-Plain :
    (a : Args) (s : Text) (args : List Text)
    → Plain s
    → parse_loop a (s ∷ args) ≡ parse_loop (add_positional s a) args
unfolding parse_loop
parse_loop-Plain a s [] p = unless _ _ _ p.0 ∙ unless _ _ _ p.1 ∙ unless _ _ _ p.2
parse_loop-Plain a s (t ∷ args) p = unless _ _ _ p.0 ∙ unless _ _ _ p.1 ∙ unless _ _ _ p.2

no_flag : (path : Text) → is_config_flag (config_flag ++ path) ≡ false
unfolding text_eq
no_flag path = refl

parse_loop-valued :
    (a : Args) (path : Text) (args : List Text)
    → parse_loop a (codes "--config" ∷ path ∷ args) ≡ parse_loop (set_config path a) args
unfolding parse_loop text_eq
parse_loop-valued a path args = refl

parse_loop-assigned :
    (a : Args) (path : Text) (args : List Text)
    → starts_with path config_flag ≡ false
    → parse_loop a ((config_flag ++ path) ∷ args) ≡ parse_loop (set_config path a) args
unfolding parse_loop
parse_loop-assigned a path [] h =
    unless _ _ _ (no_flag path)
    ∙ when _ _ _ ((starts_with_iff (config_flag ++ path) config_flag).1 (path, refl))
    ∙ ap (λ p. some (set_config p a)) (trim_start_matches-append b'-' (codes "-config=") path h)
parse_loop-assigned a path (t ∷ args) h =
    unless _ _ _ (no_flag path)
    ∙ when _ _ _ ((starts_with_iff (config_flag ++ path) config_flag).1 (path, refl))
    ∙ ap (λ p. parse_loop (set_config p a) (t ∷ args))
        (trim_start_matches-append b'-' (codes "-config=") path h)

spellings :
    (a : Args) (before after : List Text) (path : Text)
    → All Plain before
    → starts_with path config_flag ≡ false
    → parse_loop a (before ++ codes "--config" ∷ path ∷ after)
      ≡ parse_loop a (before ++ (config_flag ++ path) ∷ after)
spellings a [] after path p h =
    parse_loop-valued a path after ∙ sym (parse_loop-assigned a path after h)
spellings a (s ∷ before) after path p h =
    parse_loop-Plain a s (before ++ codes "--config" ∷ path ∷ after) p.0
    ∙ spellings (add_positional s a) before after path p.1 h
    ∙ sym (parse_loop-Plain a s (before ++ (config_flag ++ path) ∷ after) p.0)

-- `--config PATH` and `--config=PATH` mean the same, wherever they stand behind arguments that are no
-- options and whatever follows. Condition: the path does not itself begin with `--config=`.
pub parse_args_spellings :
    (exists : Bool) (before after : List Text) (path : Text)
    → All Plain before
    → starts_with path config_flag ≡ false
    → parse_args exists (before ++ codes "--config" ∷ path ∷ after)
      ≡ parse_args exists (before ++ (config_flag ++ path) ∷ after)
unfolding parse_args
parse_args_spellings exists before after path p h =
    ap (resolve exists) (spellings no_args before after path p h)
