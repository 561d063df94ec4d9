-- ===== src/Tui.antt =====
-- vectorguard/src/tui/app.rs: the tabs, and what the user interface keeps of the events it is sent.
-- The sixty-four bits of the counters wrap around.
pub mod Shortening
pub mod History
pub mod ConfigText
pub mod ProcessTree
pub mod App
pub mod Keys
pub mod Loop
pub mod Render
use vector_guard.Prelude.{
  Bool, List, Option, Text, [], codes, drop, encode_char, false, if◌then◌else◌, insert, length,
  lookup, ltb, map_opt, none, show_nat, some, true, unwrap_or, utf8, ℕ, ◌%◌, ◌++◌, ◌+◌, ◌-◌, ◌/◌,
  ◌==◌, ◌^◌, ◌∷◌,
}
use vector_guard.Event.{Action, EventType, NormalizedEvent, Severity, is_incident}
use vector_guard.Incident.{action_name}

pub data Tab : Type 0 where
  dashboard events incidents config process_tree pending : Tab

abbrev pub index : Tab → ℕ
index Tab.dashboard = 0
index Tab.events = 1
index Tab.incidents = 2
index Tab.config = 3
index Tab.process_tree = 4
index Tab.pending = 5

abbrev pub from_index : ℕ → Tab
from_index i =
    if i == 1
    then Tab.events
    else if i == 2
    then Tab.incidents
    else if i == 3
    then Tab.config
    else if i == 4
    then Tab.process_tree
    else if i == 5
    then Tab.pending
    else Tab.dashboard

-- `next_tab`, with six titles.
unfoldable pub next_tab : Tab → Tab
next_tab t = from_index ((index t + 1) % 6)

pub record Stats : Type 0 where
  pub total_events : ℕ
  pub blocked : ℕ
  pub alerts : ℕ
  pub high_severity : ℕ

pub record EventRow : Type 0 where
  pub timestamp : Text
  pub pid : ℕ
  pub ppid : ℕ
  pub uid : ℕ
  pub process : Text
  pub kind : Text
  pub severity : Severity
  pub action : Text
  pub full_kind : Text

pub record IncidentRow : Type 0 where
  pub timestamp : Text
  pub pid : ℕ
  pub ppid : ℕ
  pub uid : ℕ
  pub process : Text
  pub kind : Text
  pub full_kind : Text
  pub severity : Severity
  pub action : Text
  pub rule : Text

pub record ProcessNode : Type 0 where
  pub pid : ℕ
  pub ppid : ℕ
  pub name : Text
  pub uid : ℕ
  pub event_count : ℕ
  pub last_action : Text
  pub last_seen : Text

-- The fields of `App` that `push_event` changes.
pub record View : Type 0 where
  pub stats : Stats
  pub events : List EventRow
  pub incidents : List IncidentRow
  pub process_map : List (ℕ × ProcessNode)

-- `{:03}` of a number below 1000, and `format_ts`.
abbrev pub three_digits : ℕ → Text
three_digits n = (48 + n / 100 % 10) ∷ (48 + n / 10 % 10) ∷ (48 + n % 10) ∷ []

unfoldable pub format_ts : ℕ → Text
format_ts ns =
    show_nat (ns / 1_000_000_000) ++ (b'.' ∷ three_digits (ns % 1_000_000_000 / 1_000_000))

abbrev pub full_kind_of : EventType → Text
full_kind_of EventType.exec = codes "Exec"
full_kind_of (EventType.file_access path flags) = codes "File:" ++ path
full_kind_of (EventType.network direction ip port proto) = codes "Net:" ++ show_nat port
full_kind_of (EventType.privilege syscall capability) = codes "Priv:" ++ syscall
full_kind_of (EventType.signal signum target_pid) = codes "Sig:" ++ show_nat signum

-- `&s[..n]`: the first n bytes, a panic (`none`) where they end inside of a character.
unfoldable pub slice_to : ℕ → Text → Option Text
slice_to n [] = if n == 0 then some [] else none
slice_to n (c ∷ s) =
    let width = length (encode_char c) in
    let rest = slice_to (n - width) s in
    if n == 0 then some [] else if ltb n width then none else map_opt (λ t. c ∷ t) rest

-- The kind in the table; `…` is the character U+2026.
unfoldable pub shorten : Text → Option Text
unfolding slice_to
shorten full_kind =
    if ltb 40 (length (utf8 full_kind))
    then map_opt (λ t. t ++ 0x2026 ∷ []) (slice_to 39 full_kind)
    else some full_kind

-- `+= 1` at sixty-four bits.
abbrev pub bump : ℕ → ℕ
bump n = (n + 1) % 2 ^ 64

abbrev pub is_high : Severity → Bool
is_high Severity.high = true
is_high Severity.critical = true
is_high _ = false

abbrev pub is_stopped : Action → Bool
is_stopped Action.blocked = true
is_stopped Action.killed = true
is_stopped _ = false

abbrev pub is_alert : Action → Bool
is_alert Action.alerted = true
is_alert _ = false

-- `if len > 500 { remove(0) }`
abbrev pub cap_500 {ℓ} : {A : Type ℓ} → List A → List A
cap_500 xs = if ltb 500 (length xs) then drop 1 xs else xs

module _ {J : Type 0} where
  abbrev pub count_event : Stats → NormalizedEvent J → Stats
  count_event s ev = record {
    total_events = bump s.total_events;
    blocked = if is_stopped ev.action then bump s.blocked else s.blocked;
    alerts = if is_alert ev.action then bump s.alerts else s.alerts;
    high_severity = if is_high ev.severity then bump s.high_severity else s.high_severity;
  }

  abbrev pub row_of : NormalizedEvent J → Text → EventRow
  row_of ev kind = record {
    timestamp = format_ts ev.timestamp;
    pid = ev.process.pid;
    ppid = ev.process.ppid;
    uid = ev.process.uid;
    process = ev.process.binary;
    kind = kind;
    severity = ev.severity;
    action = action_name ev.action;
    full_kind = full_kind_of ev.event_type;
  }

  abbrev pub incident_of : NormalizedEvent J → Text → IncidentRow
  incident_of ev kind = record {
    timestamp = format_ts ev.timestamp;
    pid = ev.process.pid;
    ppid = ev.process.ppid;
    uid = ev.process.uid;
    process = ev.process.binary;
    kind = kind;
    full_kind = full_kind_of ev.event_type;
    severity = ev.severity;
    action = action_name ev.action;
    rule = unwrap_or ev.rule_name [];
  }

  abbrev pub new_node : NormalizedEvent J → ProcessNode
  new_node ev = record {
    pid = ev.process.pid;
    ppid = ev.process.ppid;
    name = ev.process.binary;
    uid = ev.process.uid;
    event_count = 0;
    last_action = [];
    last_seen = [];
  }

  abbrev pub seen : NormalizedEvent J → ProcessNode → ProcessNode
  seen ev node = record node {
    event_count = bump node.event_count;
    last_action = action_name ev.action;
    last_seen = format_ts ev.timestamp;
  }

  -- What is left once the kind for the table is made.
  abbrev pub show_event : View → NormalizedEvent J → Text → View
  show_event v ev kind = record {
    stats = count_event v.stats ev;
    events = cap_500 (v.events ++ row_of ev kind ∷ []);
    incidents =
        if is_incident ev.action
        then cap_500 (v.incidents ++ incident_of ev kind ∷ [])
        else v.incidents;
    process_map =
        insert ◌==◌ ev.process.pid
          (seen ev (unwrap_or (lookup ◌==◌ ev.process.pid v.process_map) (new_node ev)))
          v.process_map;
  }

  -- `App::push_event`; `none` is a panic.
  unfoldable pub push_event : View → NormalizedEvent J → Option View
  unfolding shorten
  push_event v ev = map_opt (show_event v ev) (shorten (full_kind_of ev.event_type))

  -- Events that arrive one after another.
  unfoldable pub push_events : View → List (NormalizedEvent J) → Option View
  unfolding push_event
  push_events v [] = some v
  push_events v (ev ∷ evs) = elim (push_event v ev) [ none ↦ none | some w ↦ push_events w evs ]
