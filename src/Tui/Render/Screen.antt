-- ===== src/Tui/Render/Screen.antt =====
-- `draw` of vectorguard/src/tui/render.rs, with the tab of the configuration and the footer.
use vector_guard.Prelude.{
  Bool, List, Option, Text, [], codes, if◌then◌else◌, map_opt, none, text_eq, trim_quotes, ℕ, ◌++◌,
  ◌+◌, ◌==◌, ◌∷◌,
}
use vector_guard.Tui.{Tab}
use vector_guard.Tui.App.{App, ConfigField, Env}
use vector_guard.Tui.App.Editor.{current_field}
use vector_guard.Tui.App.Cursor.{is_detail_open}
use vector_guard.Tui.Keys.{is_filtering, is_config, is_incidents, is_pending}
use vector_guard.Tui.Render.{
  Cell, Color, Table, green, red, yellow, draw_events, draw_incidents, draw_pending,
  draw_process_tree, draw_recent_events, pending_status, search_box, stat_cards,
}
use vector_guard.Tui.Render.Popup.{Popup, draw_popup}

-- A row of the configuration: the heading of a section, or a field and whether it is selected.
pub data ConfigRow : Type 0 where
  heading : Text → ConfigRow
  field_row : ConfigField → Cell → Bool → ConfigRow

abbrev pub value_color : Text → Color
value_color display_val =
    if text_eq display_val (codes "true")
    then green
    else if text_eq display_val (codes "false")
    then red
    else yellow

abbrev pub value_cell : ConfigField → Cell
value_cell field = let shown = trim_quotes field.value in (shown, value_color shown)

-- The loop over the fields, which remembers the last section: the fields from the index i on.
unfoldable pub config_rows : ℕ → Text → ℕ → List ConfigField → List ConfigRow
config_rows field_idx last_section i [] = []
config_rows field_idx last_section i (field ∷ fields) =
    let rest = config_rows field_idx field.section (i + 1) fields in
    let row = field_row field (value_cell field) (i == field_idx) in
    if text_eq field.section last_section then row ∷ rest else heading field.section ∷ row ∷ rest

-- What `draw_config` shows: title, rows, status, and the popup of the editor (name of the field, text).
pub record ConfigScreen : Type 0 where
  pub title : Text
  pub rows : List ConfigRow
  pub status : Text
  pub editor : Option (Text × Text)

abbrev pub config_editor : App → Option (Text × Text)
config_editor app =
    if app.config_editing
    then map_opt (λ field. (field.label, app.config_edit_buf ++ codes "_ ")) (current_field app)
    else none

unfoldable pub draw_config : App → ConfigScreen
draw_config app = record {
  title =
      codes " Config"
      ++ ((if app.config_modified then codes " ● unsaved" else [])
          ++ codes " — ↑↓:select  e/Enter:edit  s:save ");
  rows = config_rows app.config_field_idx [] 0 app.config_fields;
  status =
      if app.config_modified
      then codes " s:save changes  (hot-reload will apply automatically)"
      else codes " Config saved — changes apply via hot-reload";
  editor = config_editor app;
}

-- `draw_footer`
unfoldable pub draw_footer : App → Text
draw_footer app =
    if is_detail_open app
    then codes " Esc/Enter:close popup"
    else if is_filtering app
    then codes " Enter:apply  Esc:cancel"
    else if is_config app.active_tab
    then codes " q:quit  Tab/1-5:switch  ↑↓/jk:select  e/Enter:edit  s:save"
    else if is_incidents app.active_tab
    then codes " q:quit  Tab/1-6:switch  ↑↓/jk:scroll  Enter:detail  f:filter(All/Blocked/Alerted)"
    else if is_pending app.active_tab
    then codes " q:quit  Tab/1-6:switch  ↑↓/jk:scroll  a:accept  r:reject  v/Enter:view"
    else codes " q:quit  Tab/1-6:switch  ↑↓/jk:scroll  Enter:detail  /:filter"

-- The middle of the screen.
pub data Body : Type 0 where
  dashboard_body : List (Text × Cell) → Table → Body
  events_body : Table → Option Text → Body
  incidents_body : Table → Body
  config_body : ConfigScreen → Body
  tree_body : Option Table → Body
  pending_body : Table → Option Text → Body

pub record Screen : Type 0 where
  pub tab : Tab
  pub body : Body
  pub footer : Text
  pub popup : Option Popup

module _ (env : Env) where
  abbrev pub draw_body : App → Tab → Body
  draw_body app Tab.dashboard = dashboard_body (stat_cards app) (draw_recent_events app)
  draw_body app Tab.events = events_body (draw_events env app) (search_box app)
  draw_body app Tab.incidents = incidents_body (draw_incidents app)
  draw_body app Tab.config = config_body (draw_config app)
  draw_body app Tab.process_tree = tree_body (draw_process_tree app)
  draw_body app Tab.pending = pending_body (draw_pending app) (pending_status env app)

  unfoldable pub draw : App → Screen
  draw app = record {
    tab = app.active_tab;
    body = draw_body app app.active_tab;
    footer = draw_footer app;
    popup = draw_popup env app;
  }
