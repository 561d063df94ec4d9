-- ===== src/Incident.antt =====
-- vectorguard/src/incident.rs: the incident log. Creating the directory and the file is left out;
-- `to_json` is `serde_json::to_string`.
pub mod Queue
use vector_guard.Prelude.{
  Bool, List, Option, Text, [], codes, false, if◌then◌else◌, length, ltb, none, not, show_nat, some,
  true, ℕ, ◌&&◌, ◌++◌, ◌∷◌,
}
use vector_guard.Event.{Proto, EventType, Action, NormalizedEvent, is_incident}
use vector_guard.SlowPath.Embedder.{proto_name}

pub record IncidentRecord : Type 0 where
  pub timestamp : ℕ
  pub pid : ℕ
  pub ppid : ℕ
  pub uid : ℕ
  pub binary : Text
  pub event_type : Text
  pub rule : Option Text
  pub action : Text

-- `{:?}` of an action.
abbrev pub action_name : Action → Text
action_name Action.allowed = codes "Allowed"
action_name Action.logged = codes "Logged"
action_name Action.blocked = codes "Blocked"
action_name Action.killed = codes "Killed"
action_name Action.alerted = codes "Alerted"

abbrev pub type_text : EventType → Text
type_text EventType.exec = codes "Exec"
type_text (EventType.file_access path flags) = codes "FileAccess:" ++ path
type_text (EventType.network direction ip port proto) =
    codes "Network:" ++ (proto_name proto ++ (codes ":" ++ show_nat port))
type_text (EventType.privilege syscall capability) = codes "Privilege:" ++ syscall
type_text (EventType.signal signum target_pid) = codes "Signal:" ++ show_nat signum

abbrev pub record_of : {J : Type 0} → NormalizedEvent J → IncidentRecord
record_of event = record {
  timestamp = event.timestamp;
  pid = event.process.pid;
  ppid = event.process.ppid;
  uid = event.process.uid;
  binary = event.process.binary;
  event_type = type_text event.event_type;
  rule = event.rule_name;
  action = action_name event.action;
}

-- The channel to the writer task: the lines that wait, oldest first, and whether it still listens.
pub record Channel : Type 0 where
  pub pending : List Text
  pub open_end : Bool

abbrev pub capacity : ℕ
capacity = 1024

-- `tx.try_send(line)`: the channel, and whether the line was taken.
abbrev pub try_send : Channel → Text → Channel × Bool
try_send ch line =
    if ch.open_end && ltb (length ch.pending) capacity
    then (record ch { pending = ch.pending ++ line ∷ [] }, true)
    else (ch, false)

-- `locked` tells whether `tx.try_lock` succeeds.
abbrev pub send_line : Bool → Channel → Option Text → Channel × Bool
send_line locked ch none = (ch, false)
send_line locked ch (some json) = if locked then try_send ch json else (ch, true)

-- `IncidentLogger::record`
unfoldable pub record_event :
    {J : Type 0}
    → (IncidentRecord → Option Text)
    → Bool
    → Channel
    → NormalizedEvent J
    → Channel × Bool
record_event to_json locked ch event =
    if not (is_incident event.action)
    then (ch, false)
    else send_line locked ch (to_json (record_of event))

-- The loop of `writer_task`: `write` is `write_all` of a line; a failed write drops the line, and
-- one that succeeds is ended by a newline.
unfoldable pub writer_task : (Text → Bool) → List Text → Text → Text
writer_task write [] file = file
writer_task write (line ∷ lines) file =
    writer_task write lines (if write line then file ++ (line ++ 10 ∷ []) else file)
