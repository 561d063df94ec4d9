-- ===== src/Glob.antt =====
-- The `glob` crate, which is not part of the repository: a parameter of what uses it
-- (fast_path/rules.rs and scope.rs). Nothing is assumed of it.
use vector_guard.Prelude.{Bool, Option, Text, false, none, some, text_eq}

pub record Glob : Type 1 where
  pub Pattern : Type 0
  -- `glob::Pattern::new(text).ok()`
  pub compile : Text → Option Pattern
  -- `pattern.matches(text)`
  pub matches : Pattern → Text → Bool

-- `glob::Pattern::new(pat).map(|p| p.matches(text)).unwrap_or(false)`
abbrev pub glob_hit : (g : Glob) → Text → Text → Bool
glob_hit g pat text = elim (g.compile pat) [ none ↦ false | some p ↦ g.matches p text ]

-- A concrete matcher, for tests: every pattern stands for itself.
abbrev pub literal_glob : Glob
literal_glob = record { Pattern = Text; compile = λ s. some s; matches = text_eq }
