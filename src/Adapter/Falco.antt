-- ===== src/Adapter/Falco.antt =====
-- vectorguard/src/adapter/falco.rs: the alerts of Falco as events. `Json` is what the code uses of
-- serde_json: `from_str`, indexing by a key, `as_str` and `as_u64`.
use vector_guard.Prelude.{
  Bool, List, Option, String, Text, [], any, codes, false, if◌then◌else◌, is_empty, map_opt, none,
  not, text_eq, trim, unwrap_or, ℕ, ◌%◌, ◌/◌, ◌==◌, ◌^◌, ◌||◌, ◌∷◌,
}
use vector_guard.Event.{
  Action, Direction, EventSource, EventType, FileFlags, IpAddr, NormalizedEvent, Proto, Severity,
}

pub record Json (J : Type 0) : Type 0 where
  pub from_str : Text → Option J
  pub at : J → Text → J
  pub as_str : J → Option Text
  pub as_u64 : J → Option ℕ

-- A `match` on texts: the value of the first case that lists the text.
abbrev pub is_one_of : Text → List Text → Bool
is_one_of s names = any (text_eq s) names

abbrev pub falco_priority_to_severity : Text → Severity
falco_priority_to_severity p =
    if is_one_of p (codes "Emergency" ∷ codes "Alert" ∷ codes "Critical" ∷ [])
    then Severity.critical
    else if text_eq p (codes "Error")
    then Severity.high
    else if text_eq p (codes "Warning")
    then Severity.medium
    else if text_eq p (codes "Notice")
    then Severity.low
    else Severity.info

-- `flags & 0x1` and `flags & 0x2`.
abbrev pub open_flags : ℕ → FileFlags
open_flags flags = record {
  read = flags % 2 == 0;
  write = not (flags % 2 == 0) || not (flags / 2 % 2 == 0);
  execute = false;
}

module _ {J : Type 0} (json : Json J) where
  open json use {from_str, at, as_str, as_u64}

  abbrev pub text_at : J → String → Text → Text
  text_at v key default_value = unwrap_or (as_str (at v (codes key))) default_value

  -- `as_u64().unwrap_or(d) as u32` at 32 bits, and `as u16` at 16.
  abbrev pub number_at : ℕ → J → String → ℕ → ℕ
  number_at width v key default_value =
      unwrap_or (as_u64 (at v (codes key))) default_value % 2 ^ width

  abbrev pub falco_event_type : J → EventType
  falco_event_type fields =
      let evt_type = text_at fields "evt.type" [] in
      if is_one_of evt_type (codes "execve" ∷ codes "execveat" ∷ [])
      then EventType.exec
      else if is_one_of evt_type (codes "openat" ∷ codes "open" ∷ [])
      then EventType.file_access (text_at fields "fd.name" [])
          (open_flags (number_at 32 fields "fd.openflags" 0))
      else if text_eq evt_type (codes "connect")
      then EventType.network Direction.outbound (IpAddr.v4 0 0 0 0)
          (number_at 16 fields "fd.sport" 0) Proto.tcp
      else EventType.exec

  abbrev pub falco_event : ℕ → J → NormalizedEvent J
  falco_event id v =
      let fields = at v (codes "output_fields") in
      record {
        id = id;
        timestamp = 0;
        source = EventSource.falco;
        process = record {
          pid = number_at 32 fields "proc.pid" 0;
          ppid = number_at 32 fields "proc.ppid" 0;
          binary = text_at fields "proc.name" [];
          args = [];
          uid = number_at 32 fields "user.uid" 65534;
          gid = 0;
          cwd = [];
        };
        parent = none;
        event_type = falco_event_type fields;
        severity = falco_priority_to_severity (text_at v "priority" (codes "Informational"));
        action = Action.allowed;
        rule_name = none;
        k8s = none;
        raw = v;
      }

  unfoldable pub parse_falco_json : ℕ → Text → Option (NormalizedEvent J)
  parse_falco_json id line = map_opt (falco_event id) (from_str line)

  -- One line of `next_event`.
  unfoldable pub event_of_line : ℕ → Text → Option (NormalizedEvent J)
  unfolding parse_falco_json
  event_of_line id raw_line =
      let line = trim raw_line in if is_empty line then none else parse_falco_json id line
