-- ===== src/Adapter.antt =====
-- vectorguard/src/adapter/mod.rs, and the loop that the adapters for the audit log and for Falco
-- share: reading a growing file line by line (`next_event` of adapter/auditd.rs and adapter/falco.rs).
pub mod Falco
pub mod Tetragon
pub mod Delivered
use vector_guard.Prelude.{
  Bool, List, Option, Text, [], codes, if◌then◌else◌, none, not, some, true, ℕ, ◌%◌, ◌&&◌, ◌+◌, ◌^◌,
  ◌∷◌,
}
use vector_guard.Event.{EventSource, NormalizedEvent}
use vector_guard.Config.{AdapterBackend}

-- `EventSource::name`
abbrev pub source_name : EventSource → Text
source_name EventSource.tetragon = codes "tetragon"
source_name EventSource.falco = codes "falco"
source_name EventSource.auditd = codes "auditd"
source_name EventSource.native_ebpf = codes "native_ebpf"

-- `create`, by the source of the adapter that is made: `none` is a panic.
abbrev pub create : AdapterBackend → Option EventSource
create AdapterBackend.tetragon = some EventSource.tetragon
create AdapterBackend.falco = some EventSource.falco
create AdapterBackend.auditd = some EventSource.auditd
create AdapterBackend.native_ebpf = none

-- What one pass of the loop meets: whether the file can be opened (tried only while it is not), and
-- what `read_line` returns, an empty text at the end of the file.
pub record Attempt : Type 0 where
  pub can_open : Bool
  pub read : Option Text

-- An adapter between two passes: whether the file is open, and the next identifier.
pub record Reader : Type 0 where
  pub is_open : Bool
  pub next_id : ℕ

-- How a pass ends: with an event, with an error, or with another pass.
pub data Pass (J : Type 0) : Type 0 where
  event : NormalizedEvent J → Pass J
  error again : Pass J

module _ {J : Type 0} (event_of_line : ℕ → Text → Option (NormalizedEvent J)) where
  abbrev pub take_line : ℕ → Option (NormalizedEvent J) → Reader × Pass J
  take_line id none = (record { is_open = true; next_id = id }, again)
  take_line id (some ev) = (record { is_open = true; next_id = (id + 1) % 2 ^ 64 }, event ev)

  abbrev pub take_read : ℕ → Option Text → Reader × Pass J
  take_read id none = (record { is_open = true; next_id = id }, error)
  take_read id (some []) = (record { is_open = true; next_id = id }, again)
  take_read id (some (c ∷ line)) = take_line id (event_of_line id (c ∷ line))

  -- The body of the loop of `next_event`.
  unfoldable pub try_once : Reader → Attempt → Reader × Pass J
  try_once r a = if not r.is_open && not a.can_open then (r, error) else take_read r.next_id a.read

  -- `run` around it, one pass after another: the events that are sent. Each pass comes with whether the
  -- receiver is still there.
  abbrev pub send_pass :
      (Reader → List (NormalizedEvent J)) → Bool → Reader × Pass J → List (NormalizedEvent J)
  send_pass rest listening (r, event ev) = if listening then ev ∷ rest r else []
  send_pass rest listening (r, error) = rest r
  send_pass rest listening (r, again) = rest r

  unfoldable pub run_adapter : Reader → List (Attempt × Bool) → List (NormalizedEvent J)
  unfolding try_once
  run_adapter r [] = []
  run_adapter r ((a, listening) ∷ passes) =
      send_pass (λ q. run_adapter q passes) listening (try_once r a)
