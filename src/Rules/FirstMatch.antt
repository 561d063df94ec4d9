-- ===== src/Rules/FirstMatch.antt =====
-- Which rule decides: the first that matches, in the order of the set.
use vector_guard.Prelude.{
  All, Bool-cases, List, Option, Text, [], ap, false, false≢true, find, find-append, find-eq-none,
  find-eq-some, find-none, inl, inr, map_opt, none, refl, some, sym, ◌++◌, ◌↔◌, ◌∙◌, ◌∷◌, ◌≡◌,
}
use vector_guard.Event.{Action, NormalizedEvent}
use vector_guard.Glob.{Glob}
use vector_guard.Rules.{Rule, RuleSet, to_action, matches, evaluate}
use vector_guard.Rules.Matching.{Satisfies, matches_iff}

module _ {J : Type 0} (g : Glob) (event : NormalizedEvent J) where
  -- The decision `d` comes from a rule that the event satisfies, and from no later one: none of
  -- the rules before it is satisfied.
  pub record FirstMatch (rs : RuleSet) (d : Action × Text) : Type 0 where
    pub before : List Rule
    pub rule : Rule
    pub after : List Rule
    pub split : rs.rules ≡ before ++ rule ∷ after
    pub earlier : All (λ r. ¬ Satisfies g r event) before
    pub hit : Satisfies g rule event
    pub decision : d ≡ (to_action rule.action, rule.name)

module _ {J : Type 0} (g : Glob) (event : NormalizedEvent J) where
  missed→unsatisfied : (r : Rule) → matches g r event ≡ false → ¬ Satisfies g r event
  missed→unsatisfied r h s = false≢true (sym h ∙ (matches_iff g r event).1 s)

  unsatisfied→missed : (r : Rule) → ¬ Satisfies g r event → matches g r event ≡ false
  unsatisfied→missed r n = elim (Bool-cases (matches g r event)) [
    | inl h ↦ absurd (n ((matches_iff g r event).0 h))
    | inr h ↦ h
  ]

  All-missed :
      (rs : List Rule)
      → All (λ r. matches g r event ≡ false) rs
      → All (λ r. ¬ Satisfies g r event) rs
  All-missed [] h = tt
  All-missed (r ∷ rs) h = (missed→unsatisfied r h.0, All-missed rs h.1)

  All-unsatisfied :
      (rs : List Rule)
      → All (λ r. ¬ Satisfies g r event) rs
      → All (λ r. matches g r event ≡ false) rs
  All-unsatisfied [] h = tt
  All-unsatisfied (r ∷ rs) h = (unsatisfied→missed r h.0, All-unsatisfied rs h.1)

  evaluate→first :
      (rs : RuleSet) {d : Action × Text} → evaluate g rs event ≡ some d → FirstMatch g event rs d
  unfolding evaluate
  evaluate→first rs {d} h = go (find (λ r. matches g r event) rs.rules) refl h
    where
      go :
          (o : Option Rule)
          → find (λ r. matches g r event) rs.rules ≡ o
          → map_opt (λ r. (to_action r.action, r.name)) o ≡ some d
          → FirstMatch g event rs d
      go none e h = cc
      go (some r) e h =
          let (before, after, split, missed, hit) = find-eq-some _ rs.rules e in
          record {
            before = before;
            rule = r;
            after = after;
            split = split;
            earlier = All-missed before missed;
            hit = (matches_iff g r event).0 hit;
            decision = cc;
          }

  first→evaluate :
      (rs : RuleSet) {d : Action × Text} → FirstMatch g event rs d → evaluate g rs event ≡ some d
  unfolding evaluate
  first→evaluate rs {d} f =
      rw
        (
          f.split,
          find-append (λ r. matches g r event) f.before f.after f.rule
              (All-unsatisfied f.before f.earlier) ((matches_iff g f.rule event).1 f.hit),
        )
        (ap some (sym f.decision))

  -- `evaluate` returns an action and a name exactly when they are those of the first rule of the
  -- set that the event satisfies.
  pub evaluate_iff :
      (rs : RuleSet) (d : Action × Text) → (evaluate g rs event ≡ some d) ↔ FirstMatch g event rs d
  evaluate_iff rs d = (evaluate→first rs, first→evaluate rs)

  pub evaluate-none :
      (rs : RuleSet) → (evaluate g rs event ≡ none) ↔ All (λ r. ¬ Satisfies g r event) rs.rules
  unfolding evaluate
  evaluate-none rs = (
    λ h. All-missed rs.rules (find-eq-none _ rs.rules (none_of_map (find _ rs.rules) h)),
    λ h. rw (find-none (λ r. matches g r event) rs.rules (All-unsatisfied rs.rules h)),
  )
    where
      none_of_map :
          (o : Option Rule)
          → map_opt {B = Action × Text} (λ r. (to_action r.action, r.name)) o ≡ none
          → o ≡ none
      none_of_map none h = refl
      none_of_map (some r) h = cc
