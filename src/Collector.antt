-- ===== src/Collector.antt =====
-- vectorguard/src/collector.rs: from the raw record of the ring buffer to a normalised event.
-- Loading and attaching the programs, and the polling of the ring buffer, are left out.
pub mod Parsing
pub mod Connect
use vector_guard.Prelude.{
  Bool, List, Option, Text, [], any, codes, false, from_utf8, if◌then◌else◌, none, not, some,
  starts_with, suc, ℕ, ◌%◌, ◌/◌, ◌==◌, ◌||◌, ◌∷◌,
}
use vector_guard.Common.{
  EventKind, RawEvent, bytes_at, byte_at, le16, le_value, str_or_invalid, comm_str, until_zero,
}
use vector_guard.Event.{
  EventSource, Severity, Action, Direction, Proto, FileFlags, IpAddr, EventType, ProcessInfo,
  NormalizedEvent,
}

-- `is_sensitive_path`
abbrev pub sensitive : List Text
sensitive =
    codes "/etc/shadow"
    ∷ codes "/etc/passwd"
    ∷ codes "/etc/sudoers"
    ∷ codes "/root/"
    ∷ codes "/proc/kcore"
    ∷ codes "/proc/kmem"
    ∷ codes "/proc/sysrq-trigger"
    ∷ codes "/proc/sys/kernel/"
    ∷ codes "/sys/kernel/"
    ∷ []

abbrev pub is_sensitive_path : Text → Bool
is_sensitive_path path = any (λ s. starts_with path s) sensitive

-- `flags & 0x1` and `flags & 0x2`
abbrev pub bit0 : ℕ → Bool
bit0 flags = not (flags % 2 == 0)

abbrev pub bit1 : ℕ → Bool
bit1 flags = not (flags / 2 % 2 == 0)

-- The flags of an open call. O_RDONLY is 0, O_WRONLY is 1, O_RDWR is 2.
abbrev pub file_flags : ℕ → FileFlags
file_flags flags = record {
  read = not (bit0 flags);
  write = bit0 flags || bit1 flags;
  execute = false;
}

-- The three members of the union that are read.
abbrev pub file_path : List ℕ → Text
file_path payload = str_or_invalid (bytes_at 0 256 payload)

abbrev pub file_flag_bits : List ℕ → ℕ
file_flag_bits payload = le_value (bytes_at 256 4 payload)

abbrev pub net_port : List ℕ → ℕ
net_port payload = le16 (byte_at payload 0) (byte_at payload 1)

abbrev pub net_family : List ℕ → ℕ
net_family payload = byte_at payload 3

abbrev pub net_addr : List ℕ → List ℕ
net_addr payload = bytes_at 4 16 payload

abbrev pub remote_ip : ℕ → List ℕ → IpAddr
remote_ip family a =
    if family == 4
    then IpAddr.v4 (byte_at a 0) (byte_at a 1) (byte_at a 2) (byte_at a 3)
    else if family == 6
    then IpAddr.v6 a
    else IpAddr.v4 0 0 0 0

-- `parse_event_type`, which never fails.
abbrev pub parse_kind : EventKind → List ℕ → EventType × Severity
parse_kind EventKind.exec payload = (EventType.exec, Severity.info)
parse_kind EventKind.file_open payload =
    let path = file_path payload in
    (
      EventType.file_access path (file_flags (file_flag_bits payload)),
      if is_sensitive_path path then Severity.high else Severity.info,
    )
parse_kind EventKind.net_connect payload = (
  EventType.network Direction.outbound (remote_ip (net_family payload) (net_addr payload))
      (net_port payload) Proto.tcp,
  Severity.info,
)
parse_kind EventKind.privilege payload = (EventType.privilege (codes "unknown") none, Severity.high)

unfoldable pub parse_event_type : RawEvent → EventType × Severity
parse_event_type raw = parse_kind raw.kind raw.payload

-- `extract_argv`: at most one argument.
abbrev pub argv_of : List ℕ → Option Text → List Text
argv_of [] decoded = []
argv_of (b ∷ bytes) none = []
argv_of (b ∷ bytes) (some s) = s ∷ []

unfoldable pub extract_argv : List ℕ → List Text
unfolding until_zero from_utf8
extract_argv buf = argv_of (until_zero buf) (from_utf8 (until_zero buf))

abbrev pub args_of : EventKind → List ℕ → List Text
args_of EventKind.exec payload = extract_argv (bytes_at 256 512 payload)
args_of _ payload = []

module _ {J : Type 0} (null : J) where
  -- `parse_raw_event` of a record of full size; `id` is the next value of the counter.
  unfoldable pub parse_raw_event : ℕ → RawEvent → NormalizedEvent J
  parse_raw_event id raw =
      let (event_type, severity) = parse_event_type raw in
      record {
        id = id;
        timestamp = raw.timestamp;
        source = EventSource.native_ebpf;
        process = record {
          pid = raw.pid;
          ppid = raw.ppid;
          binary = comm_str raw;
          args = args_of raw.kind raw.payload;
          uid = raw.uid;
          gid = raw.gid;
          cwd = [];
        };
        parent = none;
        event_type = event_type;
        severity = severity;
        action = if raw.blocked == 0 then Action.allowed else Action.blocked;
        rule_name = none;
        k8s = none;
        raw = null;
      }

  -- The inner loop of `run_collector` over the records at hand: the events that are sent on, those of
  -- the daemon itself left out. A record that is too small is skipped with a warning (`none`); the
  -- counter goes on with each record that is parsed.
  unfoldable pub collect : ℕ → ℕ → List (Option RawEvent) → List (NormalizedEvent J)
  collect own_pid id [] = []
  collect own_pid id (none ∷ items) = collect own_pid id items
  collect own_pid id (some raw ∷ items) =
      let event = parse_raw_event id raw in
      let rest = collect own_pid (suc id) items in
      if event.process.pid == own_pid then rest else event ∷ rest
