-- ===== src/Rules/Dead.antt =====
-- Rules that can never match, because `match_process` and `match_exec_path` of fast_path/rules.rs
-- are both held against `event.process.binary`.
use vector_guard.Prelude.{
  All, Any, Bool, Bool-cases, List, Text, [], all, arith, false, inl, inr, not, starts_with,
  starts_with_iff, subst, sym, true, ℕ, ◌==◌, ◌||◌, ◌∷◌, ◌≡◌, ◌≢◌,
}
use vector_guard.Event.{EventType, NormalizedEvent}
use vector_guard.Glob.{Glob, glob_hit}
use vector_guard.Rules.{Rule, matches}
use vector_guard.Rules.Matching.{PrefixOf, ExecUnder, Satisfies, matches_iff}

-- A pattern with none of the characters that are special to a glob.
abbrev pub is_special : ℕ → Bool
is_special c = c == b'*' || c == b'?' || c == b'[' || c == b']'

abbrev pub is_plain : Text → Bool
is_plain pat = all (λ c. not (is_special c)) pat

-- The documented behaviour of a plain pattern: it matches only itself.
abbrev pub PlainIsLiteral : Glob → Type 0
PlainIsLiteral g = (pat text : Text) → is_plain pat ≡ true → glob_hit g pat text ≡ true → text ≡ pat

-- The text begins with none of the prefixes.
abbrev pub clear_of : List Text → Text → Bool
clear_of prefixes text = all (λ p. not (starts_with text p)) prefixes

clear_of-not-PrefixOf :
    (prefixes : List Text) (text : Text)
    → clear_of prefixes text ≡ true
    → ¬ Any (PrefixOf text) prefixes
clear_of-not-PrefixOf [] text h a = absurd a
clear_of-not-PrefixOf (p ∷ ps) text h (inl q) =
    let hit : starts_with text p ≡ true = (starts_with_iff text p).1 q in ground arith
clear_of-not-PrefixOf (p ∷ ps) text h (inr a) = clear_of-not-PrefixOf ps text (ground arith) a

module _ (g : Glob) (literal : PlainIsLiteral g) where
  -- Where a plain pattern of the list hits, what holds of every pattern holds of the text.
  hit-transfers :
      (P : Text → Type 0) (pats : List Text) (text : Text)
      → All (λ pat. is_plain pat ≡ true) pats
      → All P pats
      → Any (λ pat. glob_hit g pat text ≡ true) pats
      → P text
  hit-transfers P [] text plain holds h = absurd h
  hit-transfers P (p ∷ ps) text plain holds (inl h) =
      subst P (sym (literal p text plain.0 h)) holds.0
  hit-transfers P (p ∷ ps) text plain holds (inr h) = hit-transfers P ps text plain.1 holds.1 h

  exec_under→prefix :
      (ps : List Text) (binary : Text) (t : EventType)
      → ExecUnder ps binary t
      → Any (PrefixOf binary) ps
  exec_under→prefix ps binary EventType.exec h = h
  exec_under→prefix ps binary _ h = absurd h

  -- Where a plain glob pattern hits nothing but itself: a rule that names plain process patterns
  -- and executable prefixes, none of the patterns under one of the prefixes, matches no event at
  -- all, since both conditions are held against the same binary.
  disjoint_rule_dead :
      {J : Type 0} (r : Rule) (event : NormalizedEvent J)
      → r.match_process ≢ []
      → r.match_exec_path ≢ []
      → All (λ pat. is_plain pat ≡ true) r.match_process
      → All (λ pat. clear_of r.match_exec_path pat ≡ true) r.match_process
      → matches g r event ≡ false
  disjoint_rule_dead r event some_process some_exec plain clear =
      elim (Bool-cases (matches g r event)) [
        | inl h ↦ absurd (conflict ((matches_iff g r event).0 h))
        | inr h ↦ h
      ]
    where
      conflict : ¬ Satisfies g r event
      conflict s = elim s.process [
        | inl e ↦ some_process e
        | inr hits ↦ elim s.exec [
          | inl e ↦ some_exec e
          | inr under ↦
              clear_of-not-PrefixOf r.match_exec_path event.process.binary
                (hit-transfers (λ t. clear_of r.match_exec_path t ≡ true) r.match_process _ plain
                  clear hits)
                (exec_under→prefix r.match_exec_path _ event.event_type under)
        ]
      ]
