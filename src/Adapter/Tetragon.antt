-- ===== src/Adapter/Tetragon.antt =====
-- vectorguard/src/adapter/tetragon.rs: the messages of Tetragon (vectorguard/proto/tetragon.proto) as
-- events. `parse_ip` is `str::parse::<IpAddr>`, and `null` the JSON value of that name.
pub mod Stream
use vector_guard.Prelude.{
  Bool, List, Option, Text, [], any, codes, contains, if◌then◌else◌, is_empty, map_opt, none, some,
  starts_with, unwrap_or, ℕ, ◌%◌, ◌++◌, ◌==◌, ◌^◌, ◌||◌, ◌∷◌,
}
use vector_guard.Event.{
  Action, Direction, EventSource, EventType, FileFlags, IpAddr, K8sMeta, NormalizedEvent,
  ProcessInfo, Proto, Severity,
}
use vector_guard.Auditd.{split_whitespace}
use vector_guard.Adapter.Falco.{open_flags}

-- The messages, with the fields that the adapter reads.
pub record Pod : Type 0 where
  pub namespace : Text
  pub name : Text

pub record Process : Type 0 where
  pub pid : Option ℕ
  pub uid : Option ℕ
  pub cwd : Text
  pub binary : Text
  pub arguments : Text
  pub pod : Option Pod

pub data KprobeArgument : Type 0 where
  file_arg : Text → ℕ → KprobeArgument
  sock_arg : ℕ → Text → KprobeArgument
  other_arg : KprobeArgument

-- The two optional processes, then what the kind of event adds.
pub data Message : Type 0 where
  process_exec : Option Process → Option Process → Message
  process_exit : Option Process → Option Process → Message
  process_kprobe : Option Process → Option Process → Text → List KprobeArgument → Message
  process_tracepoint : Option Process → Option Process → Text → Text → Message
  process_loader process_uprobe : Message

abbrev pub process_info : Process → ProcessInfo
process_info p = record {
  pid = unwrap_or p.pid 0;
  ppid = 0;
  uid = unwrap_or p.uid 65534;
  gid = 0;
  binary = p.binary;
  args = split_whitespace p.arguments;
  cwd = p.cwd;
}

abbrev pub k8s_of : Option Pod → Option K8sMeta
k8s_of none = none
k8s_of (some pod) =
    if is_empty pod.name
    then none
    else some (record {
      pod_name = pod.name;
      namespace = pod.namespace;
      node_name = [];
      container = record { id = []; name = []; image = [] };
      labels = [];
    })

abbrev pub k8s_from : Process → Option K8sMeta
k8s_from p = k8s_of p.pod

abbrev pub sensitive_paths : List Text
sensitive_paths =
    codes "/etc/shadow"
    ∷ codes "/etc/sudoers"
    ∷ codes "/etc/gshadow"
    ∷ codes "/root/"
    ∷ codes "/proc/keys"
    ∷ []

abbrev pub is_sensitive : Text → Bool
is_sensitive path = any (starts_with path) sensitive_paths

abbrev pub is_suspicious_port : ℕ → Bool
is_suspicious_port port = any (λ p. port == p) (4444 ∷ 1337 ∷ 31337 ∷ 9001 ∷ 8888 ∷ 6666 ∷ [])

abbrev pub kprobe_severity : EventType → Severity
kprobe_severity (EventType.file_access path flags) =
    if is_sensitive path then Severity.high else Severity.info
kprobe_severity (EventType.network direction ip port proto) =
    if is_suspicious_port port then Severity.medium else Severity.info
kprobe_severity _ = Severity.info

-- The first argument that is a file, and the first that is a socket.
abbrev pub first_file : List KprobeArgument → Text × ℕ
first_file [] = ([], 0)
first_file (file_arg path flags ∷ args) = (path, flags)
first_file (sock_arg dport daddr ∷ args) = first_file args
first_file (other_arg ∷ args) = first_file args

abbrev pub first_sock : List KprobeArgument → Option (ℕ × Text)
first_sock [] = none
first_sock (sock_arg dport daddr ∷ args) = some (dport, daddr)
first_sock (file_arg path flags ∷ args) = first_sock args
first_sock (other_arg ∷ args) = first_sock args

abbrev pub opens : Text → Bool
opens func =
    contains func (codes "open")
    || contains func (codes "vfs_read")
    || contains func (codes "vfs_write")

abbrev pub connects : Text → Bool
connects func =
    contains func (codes "connect") || contains func (codes "tcp") || contains func (codes "sock")

abbrev pub gains : Text → Bool
gains func =
    contains func (codes "cap_") || contains func (codes "setuid") || contains func (codes "ptrace")

module _ {J : Type 0} (parse_ip : Text → Option IpAddr) (null : J) where
  abbrev pub network_to : Option (ℕ × Text) → EventType
  network_to none = EventType.network Direction.outbound (IpAddr.v4 0 0 0 0) 0 Proto.tcp
  network_to (some (dport, daddr)) =
      EventType.network Direction.outbound (unwrap_or (parse_ip daddr) (IpAddr.v4 0 0 0 0))
        (dport % 2 ^ 16) Proto.tcp

  abbrev pub kprobe_event_type : Text → List KprobeArgument → EventType
  kprobe_event_type func args =
      if opens func
      then EventType.file_access (first_file args).0 (open_flags (first_file args).1)
      else if connects func
      then network_to (first_sock args)
      else if gains func
      then EventType.privilege func none
      else EventType.exec

  -- The event that the four conversions build.
  abbrev pub event_with : ℕ → Process → Option Process → EventType → Severity → NormalizedEvent J
  event_with id proc parent event_type severity = record {
    id = id;
    timestamp = 0;
    source = EventSource.tetragon;
    process = process_info proc;
    parent = map_opt process_info parent;
    event_type = event_type;
    severity = severity;
    action = Action.allowed;
    rule_name = none;
    k8s = k8s_from proc;
    raw = null;
  }

  -- `convert_response` with its four helpers; `none` for the event of the response stands for a response
  -- without one.
  abbrev pub convert_message : ℕ → Message → Option (NormalizedEvent J)
  convert_message id (process_exec (some proc) parent) =
      some (event_with id proc parent EventType.exec Severity.info)
  convert_message id (process_exit (some proc) parent) =
      some (event_with id proc parent (EventType.signal 0 (unwrap_or proc.pid 0)) Severity.info)
  convert_message id (process_kprobe (some proc) parent func args) =
      let event_type = kprobe_event_type func args in
      some (event_with id proc parent event_type (kprobe_severity event_type))
  convert_message id (process_tracepoint (some proc) parent subsys name) = some (
      event_with id proc parent (EventType.privilege (subsys ++ (b'/' ∷ name)) none)
        Severity.medium)
  convert_message id _ = none

  unfoldable pub convert_response : ℕ → Option Message → Option (NormalizedEvent J)
  convert_response id none = none
  convert_response id (some message) = convert_message id message
