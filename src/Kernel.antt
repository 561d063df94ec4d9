-- ===== src/Kernel.antt =====
-- vectorguard-ebpf/src/main.rs: the eBPF programs. The helpers of the kernel and of aya are
-- parameters: `Call` is what one run of a program reads through them, and `Lists` is what the
-- three block maps answer.
pub mod Blocking
pub mod Policy
use vector_guard.Prelude.{
  Bool, List, Option, [], drop, false, if◌then◌else◌, none, replicate, some, take, true, unwrap_or,
  ℕ, ◌%◌, ◌++◌, ◌+◌, ◌/◌, ◌==◌, ◌^◌, ◌||◌, ◌∷◌,
}
use vector_guard.Common.{EventKind, RawEvent, bytes_at, write_at, be16, le16, byte_at, le_value}

-- What one run sees.
pub record Call : Type 0 where
  -- `bpf_get_current_pid_tgid`, `bpf_get_current_uid_gid`, `bpf_ktime_get_ns`
  pub pid_tgid : ℕ
  pub uid_gid : ℕ
  pub ktime : ℕ
  -- `bpf_get_current_comm`
  pub current_comm : Option (List ℕ)
  -- `EVENTS.reserve`: the memory handed out, which holds what was there before
  pub slot : Option RawEvent
  -- `ctx.read_at::<u64>(offset)`
  pub read_at : ℕ → Option ℕ
  -- `bpf_probe_read_user_str_bytes(ptr, &mut buf)`: the buffer afterwards
  pub read_str : ℕ → List ℕ → List ℕ
  -- `bpf_probe_read_user_buf(ptr, &mut [0; n])`
  pub read_buf : ℕ → ℕ → Option (List ℕ)

-- `MAP.get(&key).is_some()` for the three maps.
pub record Lists : Type 0 where
  pub comms : List ℕ → Bool
  pub ports : ℕ → Bool
  pub uids : ℕ → Bool

-- What a tracepoint does: the event submitted, whether SIGKILL is sent, the return value.
pub record Outcome : Type 0 where
  pub submitted : Option RawEvent
  pub killed : Bool
  pub ret : ℕ

abbrev pub nothing : Outcome
nothing = record { submitted = none; killed = false; ret = 0 }

-- `(x >> 32) as u32` and `(x & 0xFFFF_FFFF) as u32` of a 64-bit value.
abbrev pub high32 : ℕ → ℕ
high32 x = x / 2 ^ 32 % 2 ^ 32

abbrev pub low32 : ℕ → ℕ
low32 x = x % 2 ^ 32

-- `get_comm`
abbrev pub get_comm : Call → List ℕ
get_comm k = unwrap_or k.current_comm (replicate 16 0)

-- `fill_comm`: the first sixteen bytes of `comm` are written.
abbrev pub fill_comm : List ℕ → List ℕ → List ℕ
fill_comm comm16 old = take 16 comm16 ++ drop 16 old

abbrev pub flag : Bool → ℕ
flag b = if b then 1 else 0

-- The fields that every tracepoint writes.
abbrev pub stamp : Call → EventKind → Bool → RawEvent → RawEvent
stamp k kind blocked old = record {
  kind = kind;
  timestamp = k.ktime;
  pid = high32 k.pid_tgid;
  ppid = low32 k.pid_tgid;
  uid = low32 k.uid_gid;
  gid = high32 k.uid_gid;
  comm = fill_comm (get_comm k) old.comm;
  payload = old.payload;
  blocked = flag blocked;
}

-- `bpf_probe_read_user_str_bytes` into `n` bytes of the union, where the pointer was read and is
-- not null.
abbrev pub read_str_at : Call → ℕ → ℕ → Option ℕ → List ℕ → List ℕ
read_str_at k offset n none payload = payload
read_str_at k offset n (some ptr) payload =
    if ptr == 0
    then payload
    else write_at offset (k.read_str ptr (bytes_at offset n payload)) payload

-- `fill_argv`: only argv[1] is read.
abbrev pub fill_argv : Call → ℕ → List ℕ → List ℕ
fill_argv k argv_ptr payload = elim (k.read_buf (argv_ptr + 8) 8) [
  | none ↦ payload
  | some bytes ↦ read_str_at k 256 512 (some (le_value bytes)) payload
]

abbrev pub fill_argv_at : Call → Option ℕ → List ℕ → List ℕ
fill_argv_at k none payload = payload
fill_argv_at k (some ptr) payload = if ptr == 0 then payload else fill_argv k ptr payload

-- `zero_exec_payload`: 256 bytes of file name and 512 bytes of arguments.
abbrev pub zero_exec_payload : List ℕ
zero_exec_payload = replicate 768 0

-- The payload of an exec event.
unfoldable pub exec_payload : Call → List ℕ
exec_payload k =
    fill_argv_at k (k.read_at 24) (read_str_at k 0 256 (k.read_at 16) zero_exec_payload)

module _ (l : Lists) (k : Call) where
  -- `comm_is_blocked(&comm16) || uid_is_blocked(uid)`
  abbrev pub exec_blocked : Bool
  exec_blocked = l.comms (get_comm k) || l.uids (low32 k.uid_gid)

  -- `try_handle_exec`
  unfoldable pub handle_exec : Outcome
  unfolding exec_payload
  handle_exec = elim k.slot [
    | none ↦ nothing
    | some old ↦ record {
      submitted =
          some (record (stamp k EventKind.exec exec_blocked old) { payload = exec_payload k });
      killed = exec_blocked;
      ret = 0;
    }
  ]

  -- `lsm_exec`: true for -EPERM, false for 0.
  unfoldable pub lsm_exec : Bool
  lsm_exec = if l.comms (get_comm k) then true else if l.uids (low32 k.uid_gid) then true else false

-- The payload of a file event: the path, and the flags as four little-endian bytes.
abbrev pub write_flags : Option ℕ → List ℕ → List ℕ
write_flags none payload = payload
write_flags (some flags) payload =
    let f = low32 flags in
    write_at 256 ((f % 256) ∷ (f / 2 ^ 8 % 256) ∷ (f / 2 ^ 16 % 256) ∷ (f / 2 ^ 24) ∷ []) payload

unfoldable pub file_payload : Call → List ℕ → List ℕ
file_payload k old = write_flags (k.read_at 32) (read_str_at k 0 256 (k.read_at 24) old)

-- `try_handle_file_open`
unfoldable pub handle_file_open : Call → Outcome
unfolding file_payload
handle_file_open k = elim k.slot [
  | none ↦ nothing
  | some old ↦ record {
    submitted =
        some
          (record (stamp k EventKind.file_open false old) { payload = file_payload k old.payload });
    killed = false;
    ret = 0;
  }
]

-- `lsm_file_open`
abbrev pub lsm_file_open : Call → Bool
lsm_file_open k = false

-- A destination: the family byte and the sixteen address bytes; `none` for other families.
abbrev pub dst_of : List ℕ → Option (ℕ × List ℕ)
dst_of sa =
    let family = le16 (byte_at sa 0) (byte_at sa 1) in
    if family == 2
    then some (4, bytes_at 4 4 sa ++ replicate 12 0)
    else if family == 10
    then some (6, bytes_at 8 16 sa)
    else none

-- The union after the four writes of `payload.net`.
abbrev pub net_payload : ℕ → ℕ → List ℕ → List ℕ → List ℕ
net_payload port family addr old = write_at 0 ((port % 256) ∷ (port / 256) ∷ 6 ∷ family ∷ addr) old

abbrev pub net_outcome : Lists → Call → ℕ → Option (ℕ × List ℕ) → Outcome
net_outcome l k port none = nothing
net_outcome l k port (some (family, addr)) = elim k.slot [
  | none ↦ nothing
  | some old ↦ record {
    submitted = some (record (stamp k EventKind.net_connect (l.ports port) old) {
      payload = net_payload port family addr old.payload;
    });
    killed = l.ports port;
    ret = 0;
  }
]

abbrev pub connect_outcome : Lists → Call → Option (List ℕ) → Outcome
connect_outcome l k none = nothing
connect_outcome l k (some sa) = net_outcome l k (be16 (byte_at sa 2) (byte_at sa 3)) (dst_of sa)

-- `try_handle_net_connect`
unfoldable pub handle_net_connect : Lists → Call → Outcome
handle_net_connect l k =
    let addr_ptr = unwrap_or (k.read_at 24) 0 in
    if addr_ptr == 0 then nothing else connect_outcome l k (k.read_buf addr_ptr 28)
