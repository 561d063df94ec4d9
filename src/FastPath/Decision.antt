-- ===== src/FastPath/Decision.antt =====
-- What `FastPath::evaluate` decides, and what it overwrites.
use vector_guard.Prelude.{
  All, List, Option, Text, [], ap, false, if◌then◌else◌, none, refl, some, subst, sym, true, ◌++◌,
  ◌∙◌, ◌∷◌, ◌≡◌, ◌≢◌,
}
use vector_guard.Event.{Action, Severity, NormalizedEvent}
use vector_guard.Glob.{Glob}
use vector_guard.Rules
use vector_guard.Rules.{RuleAction, Rule, RuleSet, to_action}
use vector_guard.Rules.Matching.{Satisfies}
use vector_guard.Rules.FirstMatch.{FirstMatch, evaluate_iff, evaluate-none}
use vector_guard.FastPath.{FastPath, is_severe, or_default, evaluate}

-- The event with a decision written into it.
abbrev pub Decided :
    {J : Type 0} → NormalizedEvent J → Action → Option Text → NormalizedEvent J → Type 0
Decided before action rule_name after = after ≡ record before {
  action = action;
  rule_name = rule_name;
  severity = if is_severe action then Severity.high else before.severity;
}

module _ {J : Type 0} (g : Glob) (fp : FastPath) (event : NormalizedEvent J) where
  evaluate-enabled :
      fp.enabled ≡ true
      → (o : Option (Action × Text)) → Rules.evaluate g fp.rule_set event ≡ o
      → Decided event
          (or_default fp.default_action o).0
          (or_default fp.default_action o).1
          (evaluate g fp event)
  unfolding evaluate
  evaluate-enabled on none e = rw (on, e)
  evaluate-enabled on (some d) e = rw (on, e)

  -- With the fast path enabled, an event gets the action and the name of the first rule that it
  -- satisfies; its severity becomes High if the action is Blocked or Alerted, and all else stays.
  pub evaluate_first :
      (d : Action × Text)
      → fp.enabled ≡ true
      → FirstMatch g event fp.rule_set d
      → Decided event d.0 (some d.1) (evaluate g fp event)
  evaluate_first (a, name) on f =
      evaluate-enabled on (some (a, name)) ((evaluate_iff g event fp.rule_set (a, name)).1 f)

  -- With the fast path enabled, an event that satisfies no rule gets the default action and no rule
  -- name; its severity becomes High if that action is Blocked or Alerted, and all else stays.
  evaluate_default :
      fp.enabled ≡ true
      → All (λ r. ¬ Satisfies g r event) fp.rule_set.rules
      → Decided event fp.default_action none (evaluate g fp event)
  evaluate_default on missed =
      evaluate-enabled on none ((evaluate-none g event fp.rule_set).1 missed)

  pub evaluate_disabled : fp.enabled ≡ false → evaluate g fp event ≡ event
  unfolding evaluate
  evaluate_disabled off = rw off

  -- No event comes out of the enabled fast path as Allowed unless a rule with the action `allow`
  -- decided it: the default actions are Blocked, Alerted and Logged.
  pub evaluate-ne-allowed :
      fp.enabled ≡ true
      → fp.default_action ≢ Action.allowed
      → All (λ r. r.action ≢ RuleAction.allow) fp.rule_set.rules
      → (evaluate g fp event).action ≢ Action.allowed
  evaluate-ne-allowed on default no_allow h = by_decision (Rules.evaluate g fp.rule_set event) refl
    where
      pick :
          (before after : List Rule) (rule : Rule)
          → All (λ r. r.action ≢ RuleAction.allow) (before ++ rule ∷ after)
          → rule.action ≢ RuleAction.allow
      pick [] after rule a = a.0
      pick (r ∷ before) after rule a = pick before after rule a.1

      to_action-ne-allowed : (a : RuleAction) → a ≢ RuleAction.allow → to_action a ≢ Action.allowed
      to_action-ne-allowed RuleAction.block n e = cc
      to_action-ne-allowed RuleAction.alert n e = cc
      to_action-ne-allowed RuleAction.log n e = cc
      to_action-ne-allowed RuleAction.allow n e = n refl

      by_decision : (o : Option (Action × Text)) → Rules.evaluate g fp.rule_set event ≡ o → ⊥
      by_decision none e = default (sym (ap (λ ev. ev.action) (evaluate-enabled on none e)) ∙ h)
      by_decision (some d) e =
          let f : FirstMatch g event fp.rule_set d = (evaluate_iff g event fp.rule_set d).0 e in
          to_action-ne-allowed f.rule.action
            (pick f.before f.after f.rule
              (subst (All (λ r. r.action ≢ RuleAction.allow)) f.split no_allow))
            (sym (ap (λ p. p.0) f.decision)
              ∙ sym (ap (λ ev. ev.action) (evaluate-enabled on (some d) e))
              ∙ h)

  -- The action, the severity and the rule name that an event arrives with have no part in the
  -- decision of the enabled fast path: an event that the kernel has marked as Blocked is decided
  -- like one that it has let pass.
  evaluate_forgets :
      (a : Action) (s : Severity) (n : Option Text)
      → fp.enabled ≡ true
      → let event' = record event { action = a; severity = s; rule_name = n } in
        ((evaluate g fp event').action ≡ (evaluate g fp event).action)
        × ((evaluate g fp event').rule_name ≡ (evaluate g fp event).rule_name)
  unfolding evaluate Rules.evaluate Rules.matches
  evaluate_forgets a s n on = rw on (refl, refl)
