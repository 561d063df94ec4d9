-- ===== src/Samples.antt =====
-- Concrete events, rules and surroundings, on which the theorems are applied and the definitions
-- are run.
mod Maps
mod Decisions
mod Programs
mod Enforcement
mod Vectors
mod Advice
mod Tasks
mod Approvals
mod Screen
mod Interface
mod Proposals
mod Sources
use vector_guard.Prelude.{List, Option, Text, [], codes, none, ℕ, ◌∷◌}
use vector_guard.Event.{
  EventSource, Severity, Action, Direction, Proto, IpAddr, EventType, NormalizedEvent,
}
use vector_guard.Rules.{RuleAction, Rule, RuleSet}

-- An event of process 7 with the uid 1000.
abbrev pub event_of : Text → EventType → Action → NormalizedEvent Unit
event_of binary event_type action = record {
  id = 1;
  timestamp = 100;
  source = EventSource.native_ebpf;
  process = record {
    pid = 7;
    ppid = 1;
    binary = binary;
    args = [];
    uid = 1000;
    gid = 1000;
    cwd = [];
  };
  parent = none;
  event_type = event_type;
  severity = Severity.info;
  action = action;
  rule_name = none;
  k8s = none;
  raw = tt;
}

abbrev pub to_port : ℕ → EventType
to_port port = EventType.network Direction.outbound (IpAddr.v4 10 0 0 1) port Proto.tcp

-- bash connects to the port 4444.
abbrev pub bash_connects : NormalizedEvent Unit
bash_connects = event_of (codes "bash") (to_port 4444) Action.allowed

abbrev pub rule_of : Text → RuleAction → List Text → List ℕ → Option ℕ → Rule
rule_of name action process ports uid = record {
  name = name;
  action = action;
  description = none;
  match_process = process;
  match_path_prefix = [];
  match_exec_path = [];
  match_port = ports;
  match_uid = uid;
}

-- Blocks nc; alerts on the port 4444.
abbrev pub block_nc : Rule
block_nc = rule_of (codes "block-nc") RuleAction.block (codes "nc" ∷ []) [] none

abbrev pub alert_4444 : Rule
alert_4444 = rule_of (codes "alert-4444") RuleAction.alert [] (4444 ∷ []) none

abbrev pub two_rules : RuleSet
two_rules = record { rules = block_nc ∷ alert_4444 ∷ [] }
