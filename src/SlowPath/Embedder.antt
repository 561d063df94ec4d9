-- ===== src/SlowPath/Embedder.antt =====
-- vectorguard/src/slow_path/embedder/mod.rs: the text of an event and its checked embedding. The
-- providers call remote services and the local one computes with floats: `embed` is an argument.
-- `show_ip` is the standard library's formatting of an address.
pub mod Local
pub mod Providers
use vector_guard.Prelude.{
  List, Option, Text, [], codes, if◌then◌else◌, is_empty, length, none, not, show_nat, some,
  unwrap_or, ℕ, ◌++◌, ◌==◌, ◌∷◌,
}
use vector_guard.Event.{
  Severity, Direction, Proto, FileFlags, IpAddr, EventType, ProcessInfo, NormalizedEvent,
}

-- `{:?}` of the enumerations.
abbrev pub severity_name : Severity → Text
severity_name Severity.info = codes "Info"
severity_name Severity.low = codes "Low"
severity_name Severity.medium = codes "Medium"
severity_name Severity.high = codes "High"
severity_name Severity.critical = codes "Critical"

abbrev pub direction_name : Direction → Text
direction_name Direction.inbound = codes "Inbound"
direction_name Direction.outbound = codes "Outbound"

abbrev pub proto_name : Proto → Text
proto_name Proto.tcp = codes "Tcp"
proto_name Proto.udp = codes "Udp"
proto_name Proto.unknown = codes "Unknown"

-- `args.join(separator)`
abbrev pub join : Text → List Text → Text
join separator [] = []
join separator (s ∷ []) = s
join separator (s ∷ t ∷ rest) = s ++ (separator ++ join separator (t ∷ rest))

abbrev pub mode_of : FileFlags → Text
mode_of flags =
    (if flags.read then codes "r" else [])
    ++ ((if flags.write then codes "w" else []) ++ (if flags.execute then codes "x" else []))

abbrev pub kind_text : (IpAddr → Text) → EventType → Text
kind_text show_ip EventType.exec = codes "exec"
kind_text show_ip (EventType.file_access path flags) =
    codes "file_access " ++ (path ++ (codes " mode=" ++ mode_of flags))
kind_text show_ip (EventType.network direction ip port proto) =
    codes "net_"
    ++ (direction_name direction
        ++ (codes " "
            ++ (proto_name proto ++ (codes " " ++ (show_ip ip ++ (codes ":" ++ show_nat port))))))
kind_text show_ip (EventType.privilege syscall capability) =
    codes "privilege " ++ (syscall ++ (codes " cap=" ++ unwrap_or capability (codes "none")))
kind_text show_ip (EventType.signal signum target_pid) =
    codes "signal " ++ (show_nat signum ++ (codes " target_pid=" ++ show_nat target_pid))

abbrev pub args_text : List Text → Text
args_text args =
    if is_empty args then [] else codes " args=[" ++ (join (codes ", ") args ++ codes "]")

abbrev pub parent_text : Option ProcessInfo → Text
parent_text none = []
parent_text (some p) =
    codes " parent=" ++ (p.binary ++ (codes "(pid=" ++ (show_nat p.pid ++ codes ")")))

abbrev pub cwd_text : Text → Text
cwd_text cwd = if is_empty cwd then [] else codes " cwd=" ++ cwd

-- `event_to_text`
unfoldable pub event_to_text : {J : Type 0} → (IpAddr → Text) → NormalizedEvent J → Text
unfolding show_nat
event_to_text show_ip event =
    kind_text show_ip event.event_type
    ++ (codes " uid="
        ++ (show_nat event.process.uid
            ++ (codes " proc="
                ++ (event.process.binary
                    ++ (args_text event.process.args
                        ++ (cwd_text event.process.cwd
                            ++ (parent_text event.parent
                                ++ (codes " severity=" ++ severity_name event.severity))))))))

-- `Embedder::embed`: the provider's vector, if it has the provider's dimension.
abbrev pub checked : {F : Type 0} → ℕ → Option (List F) → Option (List F)
checked dim none = none
checked dim (some v) = if not (length v == dim) then none else some v

unfoldable pub embed :
    {J F : Type 0}
    → (IpAddr → Text)
    → (Text → Option (List F))
    → ℕ
    → NormalizedEvent J
    → Option (List F)
unfolding event_to_text
embed show_ip provider dim event = checked dim (provider (event_to_text show_ip event))
