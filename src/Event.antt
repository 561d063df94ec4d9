-- ===== src/Event.antt =====
-- vectorguard/src/event/mod.rs: the event that every source is normalised to.
-- `J` is the JSON value type of serde_json, which the program stores in `raw` and never reads back.
use vector_guard.Prelude.{Bool, List, Option, Text, false, ltb, true, ℕ, ◌==◌}

pub data EventSource : Type 0 where
  tetragon falco auditd native_ebpf : EventSource

pub data Severity : Type 0 where
  info low medium high critical : Severity

pub data Action : Type 0 where
  allowed logged blocked killed alerted : Action

pub data Direction : Type 0 where
  inbound outbound : Direction

pub data Proto : Type 0 where
  tcp udp unknown : Proto

pub record FileFlags : Type 0 where
  pub read : Bool
  pub write : Bool
  pub execute : Bool

-- `std::net::IpAddr`: four bytes, or sixteen.
pub data IpAddr : Type 0 where
  v4 : ℕ → ℕ → ℕ → ℕ → IpAddr
  v6 : List ℕ → IpAddr

pub data EventType : Type 0 where
  exec : EventType
  file_access : Text → FileFlags → EventType
  network : Direction → IpAddr → ℕ → Proto → EventType
  privilege : Text → Option Text → EventType
  signal : ℕ → ℕ → EventType

pub record ProcessInfo : Type 0 where
  pub pid : ℕ
  pub ppid : ℕ
  pub binary : Text
  pub args : List Text
  pub uid : ℕ
  pub gid : ℕ
  pub cwd : Text

pub record ContainerInfo : Type 0 where
  pub id : Text
  pub name : Text
  pub image : Text

pub record K8sMeta : Type 0 where
  pub pod_name : Text
  pub namespace : Text
  pub node_name : Text
  pub container : ContainerInfo
  pub labels : List (Text × Text)

pub record NormalizedEvent (J : Type 0) : Type 0 where
  pub id : ℕ
  pub timestamp : ℕ
  pub source : EventSource
  pub process : ProcessInfo
  pub parent : Option ProcessInfo
  pub event_type : EventType
  pub severity : Severity
  pub action : Action
  pub rule_name : Option Text
  pub k8s : Option K8sMeta
  pub raw : J

-- The derived order of `Severity`, by the position of the variant.
abbrev pub rank : Severity → ℕ
rank Severity.info = 0
rank Severity.low = 1
rank Severity.medium = 2
rank Severity.high = 3
rank Severity.critical = 4

-- `a < b` on severities.
abbrev pub severity_lt : Severity → Severity → Bool
severity_lt a b = ltb (rank a) (rank b)

abbrev pub action_index : Action → ℕ
action_index Action.allowed = 0
action_index Action.logged = 1
action_index Action.blocked = 2
action_index Action.killed = 3
action_index Action.alerted = 4

-- The derived equality of `Action`.
abbrev pub action_eq : Action → Action → Bool
action_eq a b = action_index a == action_index b

-- `matches!(action, Blocked | Alerted | Killed)`, the test of the incident logger, of the advisor
-- and of the incidents tab.
abbrev pub is_incident : Action → Bool
is_incident Action.blocked = true
is_incident Action.alerted = true
is_incident Action.killed = true
is_incident _ = false
