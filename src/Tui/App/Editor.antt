-- ===== src/Tui/App/Editor.antt =====
-- The editor of the configuration in vectorguard/src/tui/app.rs: `build_config_fields` and the
-- operations on the edited field.
use vector_guard.Prelude.{
  Bool, List, Option, String, Text, [], codes, false, get_elem?, map, none, some, suc, trim,
  trim_quotes, true, zero, ℕ, ◌++◌, ◌-◌, ◌∷◌,
}
use vector_guard.Tui.ConfigText.{extract_toml_value, update_toml_value}
use vector_guard.Tui.{Tab, View}
use vector_guard.Tui.App.{
  App, AppState, ConfigField, FieldType, IncidentFilter, InputMode, str, bool, int, float,
}

abbrev field : String → String → String → FieldType → ConfigField
field section key description field_type = record {
  section = codes section;
  label = codes key;
  toml_key = codes key;
  description = codes description;
  value = [];
  field_type = field_type;
}

-- The twelve fields, without their values.
abbrev pub blank_fields : List ConfigField
blank_fields =
    field "system" "log_level" "debug / info / warn / error" str
    ∷ field "fast_path" "enabled" "Enable rule engine" bool
    ∷ field "fast_path" "default_action" "block / alert / log" str
    ∷ field "slow_path" "enabled" "Enable anomaly detection" bool
    ∷ field "slow_path" "similarity_threshold" "Vector similarity threshold 0-1" float
    ∷ field "ai_advisor" "enabled" "Enable AI rule generation" bool
    ∷ field "ai_advisor" "provider" "anthropic / openai" str
    ∷ field "ai_advisor" "api_key_env" "Env var holding API key" str
    ∷ field "ai_advisor" "model" "Model name (e.g. claude-sonnet-4-6)" str
    ∷ field "ai_advisor" "trigger_threshold" "Pattern count to trigger AI call" int
    ∷ field "tui" "refresh_rate_ms" "TUI refresh rate in ms" int
    ∷ field "tui" "theme" "dark / light" str
    ∷ []

abbrev pub read_field : Text → ConfigField → ConfigField
read_field text f = record f { value = extract_toml_value text f.section f.toml_key }

unfoldable pub build_config_fields : Text → List ConfigField
build_config_fields text = map (read_field text) blank_fields

abbrev pub no_view : View
no_view = record {
  stats = record { total_events = 0; blocked = 0; alerts = 0; high_severity = 0 };
  events = [];
  incidents = [];
  process_map = [];
}

-- `App::with_approval` at the instant `now`.
unfoldable pub with_approval : ℕ → Text → Bool → App
unfolding build_config_fields
with_approval now config_text has_store = record {
  state = AppState.running;
  active_tab = Tab.dashboard;
  view = no_view;
  event_scroll = 0;
  selected_event = none;
  input_mode = InputMode.normal;
  filter_input = [];
  filter_query = [];
  incident_scroll = 0;
  incident_filter = IncidentFilter.all_incidents;
  selected_incident = none;
  proc_scroll = 0;
  config_text = config_text;
  config_fields = build_config_fields config_text;
  config_field_idx = 0;
  config_editing = false;
  config_edit_buf = [];
  config_modified = false;
  has_store = has_store;
  pending = [];
  pending_scroll = 0;
  selected_pending = none;
  pending_last_refresh = now - 3_600_000_000_000;
  pending_toast = none;
}

-- `get_mut(i)` and an assignment to what is found.
abbrev pub set_at {ℓ} : {A : Type ℓ} → ℕ → A → List A → List A
set_at i a [] = []
set_at zero a (x ∷ xs) = a ∷ xs
set_at (suc i) a (x ∷ xs) = x ∷ set_at i a xs

abbrev pub current_field : App → Option ConfigField
current_field app = get_elem? app.config_fields app.config_field_idx

unfoldable pub start_config_edit : App → App
start_config_edit app = elim (current_field app) [
  | none ↦ app
  | some field ↦ record app { config_edit_buf = trim_quotes field.value; config_editing = true }
]

unfoldable pub cancel_config_edit : App → App
cancel_config_edit app = record app { config_editing = false; config_edit_buf = [] }

-- The value as it is written into the file: a text between quotes.
abbrev pub raw_value : FieldType → Text → Text
raw_value str buf = 34 ∷ (trim buf ++ 34 ∷ [])
raw_value _ buf = trim buf

abbrev pub write_field : App → Text → ConfigField → App
write_field app raw field = record app {
  config_text = update_toml_value app.config_text field.section field.toml_key raw;
  config_fields = set_at app.config_field_idx (record field { value = raw }) app.config_fields;
  config_modified = true;
}

unfoldable pub confirm_config_edit : App → App
unfolding cancel_config_edit
confirm_config_edit app = cancel_config_edit (elim (current_field app) [
  | none ↦ app
  | some field ↦ write_field app (raw_value field.field_type app.config_edit_buf) field
])

-- `config_edit_buf.pop()`
unfoldable pub pop_char : Text → Text
pop_char [] = []
pop_char (c ∷ []) = []
pop_char (c ∷ d ∷ s) = c ∷ pop_char (d ∷ s)
