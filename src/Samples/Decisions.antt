-- ===== src/Samples/Decisions.antt =====
-- The rules, the fast path and the scope on concrete events.
use vector_guard.Prelude.{
  List, Option, Text, [], codes, false, false≢true, if◌then◌else◌, is_empty, none, refl, some, sym,
  text_eq, text_eq_iff, true, ◌↔◌, ◌∙◌, ◌∷◌, ◌≡◌,
}
use vector_guard.Event.{Action, EventType, NormalizedEvent}
use vector_guard.Glob.{literal_glob}
use vector_guard.Rules
use vector_guard.Rules.{Rule, RuleAction, RuleSet, matches}
use vector_guard.Rules.Matching.{Satisfies, matches_iff}
use vector_guard.Rules.FirstMatch.{FirstMatch, evaluate_iff}
use vector_guard.Rules.Load.{DirEntry, load_dir, dir_rules, builtin_rules, alert_shell_exec}
use vector_guard.Rules.Dead.{PlainIsLiteral}
use vector_guard.FastPath.{FastPath, evaluate}
use vector_guard.FastPath.Decision.{Decided, evaluate_first}
use vector_guard.Scope
use vector_guard.Scope.{allows}
use vector_guard.Scope.InScope.{InScope, allows_iff}
use vector_guard.Config.{ScopeConfig}
use vector_guard.Samples.{event_of, bash_connects, alert_4444, two_rules}

matches_iff_example :
    (matches literal_glob alert_4444 bash_connects ≡ true)
    ↔ Satisfies literal_glob alert_4444 bash_connects
matches_iff_example = matches_iff literal_glob alert_4444 bash_connects

evaluate_iff_example :
    (Rules.evaluate literal_glob two_rules bash_connects
      ≡ some (Action.alerted, codes "alert-4444"))
    ↔ FirstMatch literal_glob bash_connects two_rules (Action.alerted, codes "alert-4444")
evaluate_iff_example =
    evaluate_iff literal_glob bash_connects two_rules (Action.alerted, codes "alert-4444")

run_evaluate :
    Rules.evaluate literal_glob two_rules bash_connects ≡ some (Action.alerted, codes "alert-4444")
unfolding Rules.evaluate Rules.matches text_eq
run_evaluate = refl

abbrev fast_path : FastPath
fast_path = record { rule_set = two_rules; default_action = Action.logged; enabled = true }

first_match : FirstMatch literal_glob bash_connects two_rules (Action.alerted, codes "alert-4444")
first_match =
    (evaluate_iff literal_glob bash_connects two_rules (Action.alerted, codes "alert-4444")).0
      run_evaluate

evaluate_first_example :
    Decided bash_connects Action.alerted
      (some (codes "alert-4444"))
      (evaluate literal_glob fast_path bash_connects)
evaluate_first_example =
    evaluate_first literal_glob fast_path bash_connects (Action.alerted, codes "alert-4444") refl
      first_match

abbrev ls_runs : NormalizedEvent Unit
ls_runs = event_of (codes "ls") EventType.exec Action.blocked

missed : (r : Rule) → matches literal_glob r ls_runs ≡ false → ¬ Satisfies literal_glob r ls_runs
missed r h s = false≢true (sym h ∙ (matches_iff literal_glob r ls_runs).1 s)

abbrev parse : Text → Option RuleSet
parse content = if is_empty content then none else some two_rules

abbrev rules_dir : List DirEntry
rules_dir =
    record { extension = some (codes "toml"); content = some (codes "x") }
    ∷ record { extension = none; content = some (codes "x") }
    ∷ []

run_load_dir : (load_dir parse (some rules_dir)).rules ≡ two_rules.rules
unfolding load_dir Rules.Load.gather text_eq
run_load_dir = refl

literal : PlainIsLiteral literal_glob
literal pat text plain h = sym ((text_eq_iff pat text).0 h)

abbrev scope_config : ScopeConfig
scope_config = record {
  targets = codes "bash" ∷ [];
  exclude_processes = codes "systemd" ∷ [];
  include_namespaces = [];
  exclude_namespaces = [];
  label_selectors = [];
}

allows_iff_example :
    (allows literal_glob (Scope.new literal_glob scope_config) bash_connects ≡ true)
    ↔ InScope literal_glob scope_config bash_connects
allows_iff_example = allows_iff literal_glob scope_config bash_connects

run_allows : allows literal_glob (Scope.new literal_glob scope_config) bash_connects ≡ true
unfolding allows Scope.new text_eq
run_allows = refl
