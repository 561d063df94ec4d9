-- ===== src/Tui/App/Cursor.antt =====
-- Cursors, filters and detail popups of vectorguard/src/tui/app.rs.
use vector_guard.Prelude.{
  Bool, List, Text, codes, contains, filter, if◌then◌else◌, is_empty, is_some, length, ltb, none,
  some, true, ℕ, ◌+◌, ◌-◌, ◌||◌,
}
use vector_guard.Tui.{Tab, EventRow, IncidentRow}
use vector_guard.Tui.App.{App, IncidentFilter}

abbrev pub shows_incident : IncidentFilter → IncidentRow → Bool
shows_incident IncidentFilter.all_incidents i = true
shows_incident IncidentFilter.blocked i =
    contains i.action (codes "Block") || contains i.action (codes "Kill")
shows_incident IncidentFilter.alerted i = contains i.action (codes "Alert")

unfoldable pub filtered_incidents : App → List IncidentRow
filtered_incidents app = filter (shows_incident app.incident_filter) app.view.incidents

abbrev pub next_filter : IncidentFilter → IncidentFilter
next_filter IncidentFilter.all_incidents = IncidentFilter.blocked
next_filter IncidentFilter.blocked = IncidentFilter.alerted
next_filter IncidentFilter.alerted = IncidentFilter.all_incidents

unfoldable pub cycle_incident_filter : App → App
cycle_incident_filter app = record app {
  incident_filter = next_filter app.incident_filter;
  incident_scroll = 0;
}

-- `if scroll + 1 < len { scroll += 1 }`
abbrev pub down : ℕ → ℕ → ℕ
down len i = if ltb (i + 1) len then i + 1 else i

module _ (lower : Text → Text) where
  abbrev pub shows_event : Text → EventRow → Bool
  shows_event q e =
      contains (lower e.process) q
      || contains (lower e.kind) q
      || contains (lower e.action) q
      || contains (lower e.full_kind) q

  unfoldable pub filtered_events : App → List EventRow
  filtered_events app =
      let q = lower app.filter_query in
      if is_empty q then app.view.events else filter (shows_event q) app.view.events

  -- `scroll_up` for each tab.
  unfoldable pub scroll_up : App → App
  scroll_up app = elim app.active_tab [
    | Tab.process_tree ↦ record app { proc_scroll = app.proc_scroll - 1 }
    | Tab.incidents ↦ record app { incident_scroll = app.incident_scroll - 1 }
    | Tab.config ↦ record app { config_field_idx = app.config_field_idx - 1 }
    | Tab.pending ↦ record app { pending_scroll = app.pending_scroll - 1 }
    | _ ↦ record app { event_scroll = app.event_scroll - 1 }
  ]

  -- `scroll_down` for each tab.
  unfoldable pub scroll_down : App → App
  scroll_down app = elim app.active_tab [
    | Tab.process_tree ↦ record app {
      proc_scroll = down (length app.view.process_map) app.proc_scroll;
    }
    | Tab.incidents ↦ record app {
      incident_scroll = down (length (filtered_incidents app)) app.incident_scroll;
    }
    | Tab.config ↦ record app {
      config_field_idx = down (length app.config_fields) app.config_field_idx;
    }
    | Tab.pending ↦ record app { pending_scroll = down (length app.pending) app.pending_scroll }
    | _ ↦ record app { event_scroll = down (length (filtered_events app)) app.event_scroll }
  ]

  unfoldable pub open_detail : App → App
  open_detail app = elim app.active_tab [
    | Tab.incidents ↦
        if ltb 0 (length (filtered_incidents app))
        then record app { selected_incident = some app.incident_scroll }
        else app
    | Tab.pending ↦
        if is_empty app.pending
        then app
        else record app { selected_pending = some app.pending_scroll }
    | _ ↦
        if ltb 0 (length (filtered_events app))
        then record app { selected_event = some app.event_scroll }
        else app
  ]

unfoldable pub close_detail : App → App
close_detail app = record app {
  selected_event = none;
  selected_incident = none;
  selected_pending = none;
}

abbrev pub is_detail_open : App → Bool
is_detail_open app =
    is_some app.selected_event || is_some app.selected_incident || is_some app.selected_pending
