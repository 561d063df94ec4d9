-- ===== src/Tui/App.antt =====
-- The state of vectorguard/src/tui/app.rs and its operations: the editor of the configuration,
-- scrolling, filters, the detail popups, the proposals. Unicode's lower case, the clocks, the file
-- system and the TOML crate come from `Env`. The moment that an `Instant` counts from lies more than
-- an hour back, as `now - 1 h` asks.
pub mod Editor
pub mod Cursor
use vector_guard.Prelude.{
  Bool, List, Option, Text, [], codes, false, get_elem?, if◌then◌else◌, is_some, leb, length,
  lookup, ltb, map, none, not, some, text_eq, unwrap_or, ℕ, ◌*◌, ◌++◌, ◌+◌, ◌-◌, ◌/◌,
}
use vector_guard.Rules.{RuleAction, RuleSet}
use vector_guard.Approval.{Disk, Io, approve, reject, files_of, pending_name}
use vector_guard.Approval.Listing.{PendingItem, list_pending}
use vector_guard.Tui.{Tab, View, EventRow, IncidentRow, next_tab}
use vector_guard.Tui.ConfigText.{extract_toml_value, update_toml_value}

pub data AppState : Type 0 where
  running quit : AppState

pub data FieldType : Type 0 where
  str bool int float : FieldType

pub record ConfigField : Type 0 where
  pub section : Text
  pub label : Text
  pub toml_key : Text
  pub description : Text
  pub value : Text
  pub field_type : FieldType

pub record PendingRow : Type 0 where
  pub id : Text
  pub name : Text
  pub action : Text
  pub description : Text
  pub age_secs : ℕ
  pub toml_body : Text

pub data IncidentFilter : Type 0 where
  all_incidents blocked alerted : IncidentFilter

pub data InputMode : Type 0 where
  normal filtering : InputMode

-- `view` holds the fields that the events change; of the store only whether there is one, since its
-- directories are outside.
pub record App : Type 0 where
  pub state : AppState
  pub active_tab : Tab
  pub view : View
  pub event_scroll : ℕ
  pub selected_event : Option ℕ
  pub input_mode : InputMode
  pub filter_input : Text
  pub filter_query : Text
  pub incident_scroll : ℕ
  pub incident_filter : IncidentFilter
  pub selected_incident : Option ℕ
  pub proc_scroll : ℕ
  pub config_text : Text
  pub config_fields : List ConfigField
  pub config_field_idx : ℕ
  pub config_editing : Bool
  pub config_edit_buf : Text
  pub config_modified : Bool
  pub has_store : Bool
  pub pending : List PendingRow
  pub pending_scroll : ℕ
  pub selected_pending : Option ℕ
  pub pending_last_refresh : ℕ
  pub pending_toast : Option (Text × ℕ)

-- What an operation meets outside: `save` tells whether the configuration file can be written.
pub record Env : Type 0 where
  pub lower : Text → Text
  pub parse : Text → Option RuleSet
  pub io : Io
  pub save : Bool
  pub os_error : Text
  pub now : ℕ
  pub system_now : ℕ

-- The user interface with the directories and the configuration file.
pub record Session : Type 0 where
  pub app : App
  pub disk : Disk
  pub config_file : Text

abbrev pub second : ℕ
second = 1_000_000_000

module _ (env : Env) where
  open env use {io, now}

  abbrev pub set_toast : Text → App → App
  set_toast msg app = record app { pending_toast = some (msg, now + 3 * second) }

  abbrev pub current_toast : App → Option Text
  current_toast app = elim app.pending_toast [
    | none ↦ none
    | some (msg, until) ↦ if ltb now until then some msg else none
  ]

  -- `format!("{:?}", action).to_lowercase()`
  abbrev pub action_label : RuleAction → Text
  action_label RuleAction.block = codes "block"
  action_label RuleAction.alert = codes "alert"
  action_label RuleAction.log = codes "log"
  action_label RuleAction.allow = codes "allow"

  -- `read_to_string(&it.path)`: the name of the file is its id with ".toml".
  abbrev pub body_of : Disk → Text → Text
  body_of disk name =
      if io.read name
      then elim (lookup text_eq name (files_of disk.pending)) [ none ↦ [] | some file ↦ file.body ]
      else []

  abbrev pub pending_row : Disk → PendingItem → PendingRow
  pending_row disk it = record {
    id = it.id;
    name = it.rule.name;
    action = action_label it.rule.action;
    description = unwrap_or it.rule.description [];
    age_secs = (env.system_now - it.created_at) / second;
    toml_body = body_of disk (pending_name it.id);
  }

  -- The cursor is kept valid if items vanished.
  abbrev pub show_pending : App → List PendingRow → App
  show_pending app rows = record app {
    pending = rows;
    pending_scroll =
        if leb (length rows) app.pending_scroll then length rows - 1 else app.pending_scroll;
  }

  abbrev pub refreshed : App → Disk → Option (List PendingItem) → App
  refreshed app disk none = app
  refreshed app disk (some items) = show_pending app (map (pending_row disk) items)

  -- `maybe_refresh_pending`; the clock is read once.
  unfoldable pub maybe_refresh_pending : ℕ → Session → Session
  maybe_refresh_pending interval s =
      if not s.app.has_store
      then s
      else if ltb (now - s.app.pending_last_refresh) interval
      then s
      else record s {
        app =
            refreshed (record s.app { pending_last_refresh = now }) s.disk
              (list_pending env.parse io env.system_now s.disk);
      }

  -- The message of a failed approval or rejection.
  abbrev pub error_text : Disk → Text → Text
  error_text disk id =
      if is_some (lookup text_eq (pending_name id) (files_of disk.pending))
      then env.os_error
      else codes "pending id not found: " ++ id

  abbrev pub expire_refresh : App → App
  expire_refresh app = record app { pending_last_refresh = now - 3600 * second }

  -- The message after the call of the store, and the refresh that is due at once.
  abbrev pub settle : {A : Type 0} → Text → Text → Session → PendingRow → Disk × Option A → Session
  settle done failed s item (disk, result) = record s {
    app = expire_refresh (
        set_toast
          (elim result [ some a ↦ done ++ item.name | none ↦ failed ++ error_text s.disk item.id ])
          s.app);
    disk = disk;
  }

  -- The two early returns: no store, and no row under the cursor.
  abbrev pub on_current : (PendingRow → Session) → Session → Session
  on_current act s =
      if not s.app.has_store
      then s
      else elim (get_elem? s.app.pending s.app.pending_scroll) [ none ↦ s | some item ↦ act item ]

  abbrev pub accept_item : Session → PendingRow → Session
  accept_item s item =
      settle (codes "approved ") (codes "approve error: ") s item (approve io s.disk item.id)

  abbrev pub reject_item : Session → PendingRow → Session
  reject_item s item =
      settle (codes "rejected ") (codes "reject error: ") s item (reject io s.disk item.id)

  unfoldable pub pending_accept_current : Session → Session
  pending_accept_current s = on_current (accept_item s) s

  unfoldable pub pending_reject_current : Session → Session
  pending_reject_current s = on_current (reject_item s) s

  -- `save_config`
  abbrev pub save_config : Session → Session
  save_config s =
      if env.save
      then record s {
        app = record s.app { config_modified = false };
        config_file = s.app.config_text;
      }
      else s
