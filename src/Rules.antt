-- ===== src/Rules.antt =====
-- vectorguard/src/fast_path/rules.rs: rules, the matching of one rule, the evaluation of a set.
pub mod Matching
pub mod FirstMatch
pub mod Load
pub mod Dead
use vector_guard.Prelude.{
  Bool, List, Option, Text, any, false, find, if◌then◌else◌, is_empty, map_opt, none, not, some,
  starts_with, true, ℕ, ◌==◌,
}
use vector_guard.Event.{Action, EventType, NormalizedEvent}
use vector_guard.Glob.{Glob, glob_hit}

pub data RuleAction : Type 0 where
  block alert log allow : RuleAction

pub record Rule : Type 0 where
  pub name : Text
  pub action : RuleAction
  pub description : Option Text
  pub match_process : List Text
  pub match_path_prefix : List Text
  pub match_exec_path : List Text
  pub match_port : List ℕ
  pub match_uid : Option ℕ

pub record RuleSet : Type 0 where
  pub rules : List Rule

-- `RuleAction::to_action`
abbrev pub to_action : RuleAction → Action
to_action RuleAction.block = Action.blocked
to_action RuleAction.alert = Action.alerted
to_action RuleAction.log = Action.logged
to_action RuleAction.allow = Action.allowed

-- The five filters of `Rule::matches`, each true where the code does not return `false`.
abbrev pub process_passes : Glob → Rule → Text → Bool
process_passes g r binary =
    if is_empty r.match_process then true else any (λ pat. glob_hit g pat binary) r.match_process

abbrev pub uid_passes : Option ℕ → ℕ → Bool
uid_passes none uid = true
uid_passes (some u) uid = uid == u

abbrev pub port_passes : List ℕ → EventType → Bool
port_passes ports (EventType.network _ _ port _) =
    if is_empty ports then true else any (λ p. p == port) ports
port_passes ports _ = is_empty ports

abbrev pub path_passes : List Text → EventType → Bool
path_passes prefixes (EventType.file_access path _) =
    if is_empty prefixes then true else any (λ p. starts_with path p) prefixes
path_passes prefixes _ = is_empty prefixes

abbrev pub exec_passes : List Text → Text → EventType → Bool
exec_passes prefixes binary EventType.exec =
    if is_empty prefixes then true else any (λ p. starts_with binary p) prefixes
exec_passes prefixes binary _ = is_empty prefixes

module _ {J : Type 0} (g : Glob) where
  -- `Rule::matches`: the first filter that fails ends the test.
  unfoldable pub matches : Rule → NormalizedEvent J → Bool
  matches r event =
      if not (process_passes g r event.process.binary)
      then false
      else if not (uid_passes r.match_uid event.process.uid)
      then false
      else if not (port_passes r.match_port event.event_type)
      then false
      else if not (path_passes r.match_path_prefix event.event_type)
      then false
      else if not (exec_passes r.match_exec_path event.process.binary event.event_type)
      then false
      else true

  -- `RuleSet::evaluate`
  unfoldable pub evaluate : RuleSet → NormalizedEvent J → Option (Action × Text)
  evaluate rs event =
      map_opt (λ r. (to_action r.action, r.name)) (find (λ r. matches r event) rs.rules)
