-- ===== src/Tui/Render.antt =====
-- vectorguard/src/tui/render.rs: what the user interface draws, as texts. The colours are kept where
-- they depend on the data; other styles, the headings and widths of columns and the layout of areas
-- are left out.
pub mod Popup
pub mod Screen
pub mod Highlighted
pub mod Advertised
use vector_guard.Prelude.{
  List, Option, Text, [], codes, contains, if◌then◌else◌, is_empty, length, ltb, map, map_opt, none,
  reverse, show_nat, some, suc, take, zero, ℕ, ◌&&◌, ◌++◌, ◌/◌, ◌||◌, ◌∷◌,
}
use vector_guard.Event.{Severity}
use vector_guard.SlowPath.Embedder.{severity_name}
use vector_guard.Tui.{EventRow, IncidentRow, ProcessNode}
use vector_guard.Tui.ProcessTree.{process_tree_rows}
use vector_guard.Tui.App.{App, Env, IncidentFilter, PendingRow, current_toast}
use vector_guard.Tui.App.Cursor.{filtered_events, filtered_incidents}
use vector_guard.Tui.Keys.{is_filtering}

pub data Color : Type 0 where
  plain white green yellow red magenta : Color

abbrev pub severity_color : Severity → Color
severity_color Severity.info = white
severity_color Severity.low = green
severity_color Severity.medium = yellow
severity_color Severity.high = red
severity_color Severity.critical = magenta

abbrev pub action_color : Text → Color
action_color action =
    if contains action (codes "Block") || contains action (codes "Kill")
    then red
    else if contains action (codes "Alert")
    then yellow
    else green

abbrev pub Cell : Type 0
Cell = Text × Color

-- A table with the row that is highlighted.
pub record Table : Type 0 where
  pub title : Text
  pub rows : List (List Cell)
  pub selected : Option ℕ

-- `state.select(Some(scroll))` unless there are no rows.
abbrev pub select {ℓ} : {A : Type ℓ} → List A → ℕ → Option ℕ
select rows scroll = if is_empty rows then none else some scroll

abbrev pub event_cells : EventRow → List Cell
event_cells e =
    (e.timestamp, plain)
    ∷ (show_nat e.pid, plain)
    ∷ (e.process, plain)
    ∷ (e.kind, plain)
    ∷ (severity_name e.severity, severity_color e.severity)
    ∷ (e.action, action_color e.action)
    ∷ []

-- `draw_recent_events`
abbrev pub draw_recent_events : App → Table
draw_recent_events app = record {
  title = codes " Recent Events ";
  rows = map event_cells (take 20 (reverse app.view.events));
  selected = none;
}

-- The title and the value of each card of `draw_dashboard`.
abbrev pub stat_cards : App → List (Text × Cell)
stat_cards app =
    let s = app.view.stats in
    (codes "Total Events", (show_nat s.total_events, white))
    ∷ (codes "Blocked", (show_nat s.blocked, red))
    ∷ (codes "Alerts", (show_nat s.alerts, yellow))
    ∷ (codes "High Severity", (show_nat s.high_severity, magenta))
    ∷ []

-- The text of the search box; there is none while nothing is filtered.
abbrev pub search_box : App → Option Text
search_box app =
    if is_filtering app
    then some (app.filter_input ++ codes "_")
    else if is_empty app.filter_query
    then none
    else some (app.filter_query ++ codes "  (Esc to clear)")

abbrev pub incident_cells : IncidentRow → List Cell
incident_cells i =
    (i.timestamp, plain)
    ∷ (show_nat i.pid, plain)
    ∷ (i.process, plain)
    ∷ (i.kind, plain)
    ∷ (i.rule, yellow)
    ∷ (i.action, action_color i.action)
    ∷ []

abbrev pub filter_label : IncidentFilter → Text
filter_label IncidentFilter.all_incidents = codes "All"
filter_label IncidentFilter.blocked = codes "Blocked"
filter_label IncidentFilter.alerted = codes "Alerted"

unfoldable pub draw_incidents : App → Table
draw_incidents app =
    let incidents = filtered_incidents app in
    record {
      title =
          codes " Incidents ["
          ++ (filter_label app.incident_filter
              ++ (codes "] ("
                  ++ (show_nat (length incidents)
                      ++ codes " total) — Tab:filter  ↑↓:scroll  Enter:detail ")));
      rows = map incident_cells incidents;
      selected = select incidents app.incident_scroll;
    }

abbrev pub format_age : ℕ → Text
format_age secs =
    if ltb secs 60
    then show_nat secs ++ codes "s"
    else if ltb secs 3600
    then show_nat (secs / 60) ++ codes "m"
    else show_nat (secs / 3600) ++ codes "h"

abbrev pub pending_cells : PendingRow → List Cell
pending_cells p =
    (format_age p.age_secs, plain)
    ∷ (p.name, plain)
    ∷ (p.action, action_color p.action)
    ∷ (p.description, plain)
    ∷ []

unfoldable pub draw_pending : App → Table
draw_pending app = record {
  title =
      if app.has_store
      then codes " AI Pending ("
        ++ (show_nat (length app.pending) ++ codes ") — a:accept r:reject v/Enter:view ")
      else codes " AI Pending (approval store unavailable) ";
  rows = map pending_cells app.pending;
  selected = select app.pending app.pending_scroll;
}

-- `"  ".repeat(depth)`
abbrev pub indent : ℕ → Text
indent zero = []
indent (suc depth) = codes "  " ++ indent depth

abbrev pub node_cells : ℕ × ProcessNode → List Cell
node_cells (depth, node) =
    (show_nat node.pid, plain)
    ∷ (show_nat node.ppid, plain)
    ∷ (indent depth ++ ((if ltb 0 depth then codes "└─ " else []) ++ node.name), plain)
    ∷ (show_nat node.uid, plain)
    ∷ (show_nat node.event_count, plain)
    ∷ (node.last_action, action_color node.last_action)
    ∷ (node.last_seen, plain)
    ∷ []

abbrev pub tree_table : App → List (ℕ × ProcessNode) → Table
tree_table app rows = record {
  title =
      codes " Process Tree (" ++ (show_nat (length app.view.process_map) ++ codes " processes) ");
  rows = map node_cells rows;
  selected = select rows app.proc_scroll;
}

-- `none` only if the walk over the tree did not end.
unfoldable pub draw_process_tree : App → Option Table
draw_process_tree app = map_opt (tree_table app) (process_tree_rows app.view.process_map)

module _ (env : Env) where
  unfoldable pub draw_events : App → Table
  draw_events app =
      let events = filtered_events env.lower app in
      record {
        title =
            if is_empty app.filter_query
            then codes " All Events (↑↓ scroll  Enter detail  / filter) "
            else codes " Filtered: \""
              ++ (app.filter_query
                  ++ (codes "\" (" ++ (show_nat (length events) ++ codes " results) ")));
        rows = map event_cells events;
        selected = select events app.event_scroll;
      }

  -- The line below the proposals.
  abbrev pub pending_status : App → Option Text
  pending_status app = elim (current_toast env app) [
    | some msg ↦ some (codes " " ++ msg)
    | none ↦
        if is_empty app.pending && app.has_store
        then some (
            codes
              " No pending AI proposals. Enable [ai_advisor] and trigger a repeated pattern to populate.")
        else none
  ]
