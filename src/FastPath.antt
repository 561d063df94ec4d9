-- ===== src/FastPath.antt =====
-- vectorguard/src/fast_path/mod.rs: the fast path and what it writes into an event.
pub mod Decision
use vector_guard.Prelude.{Bool, List, Option, Text, false, if◌then◌else◌, none, not, some, true}
use vector_guard.Event.{Action, Severity, NormalizedEvent}
use vector_guard.Config.{DefaultAction, FastPathConfig}
use vector_guard.Glob.{Glob}
use vector_guard.Rules
use vector_guard.Rules.{Rule, RuleSet}
use vector_guard.Rules.Load.{DirEntry, load_dir}

pub record FastPath : Type 0 where
  pub rule_set : RuleSet
  pub default_action : Action
  pub enabled : Bool

abbrev pub default_to_action : DefaultAction → Action
default_to_action DefaultAction.block = Action.blocked
default_to_action DefaultAction.alert = Action.alerted
default_to_action DefaultAction.log = Action.logged

-- `FastPath::new`: `read_dir` lists the directory at a path. The warning about long process
-- patterns only logs.
unfoldable pub new :
    (Text → Option RuleSet) → (Text → Option (List DirEntry)) → FastPathConfig → FastPath
new parse read_dir cfg = record {
  rule_set = load_dir parse (read_dir cfg.rules_path);
  default_action = default_to_action cfg.default_action;
  enabled = cfg.enabled;
}

-- `FastPath::rules`
abbrev pub rules : FastPath → List Rule
rules fp = fp.rule_set.rules

-- `.map(|(a, name)| (a, Some(name))).unwrap_or((default, None))`
abbrev pub or_default : Action → Option (Action × Text) → Action × Option Text
or_default d none = (d, none)
or_default d (some (a, name)) = (a, some name)

-- `matches!(action, Blocked | Alerted)`
abbrev pub is_severe : Action → Bool
is_severe Action.blocked = true
is_severe Action.alerted = true
is_severe _ = false

module _ {J : Type 0} (g : Glob) where
  abbrev decided : NormalizedEvent J → Action × Option Text → NormalizedEvent J
  decided event (action, rule_name) = record event {
    action = action;
    rule_name = rule_name;
    severity = if is_severe action then Severity.high else event.severity;
  }

  -- `FastPath::evaluate`
  unfoldable pub evaluate : FastPath → NormalizedEvent J → NormalizedEvent J
  evaluate fp event =
      if not fp.enabled
      then event
      else decided event (or_default fp.default_action (Rules.evaluate g fp.rule_set event))
