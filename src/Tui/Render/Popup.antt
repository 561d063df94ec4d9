-- ===== src/Tui/Render/Popup.antt =====
-- The popups of vectorguard/src/tui/render.rs, line by line: the details of an incident, an event and
-- a proposal. The colours of the values are those of the tables.
use vector_guard.Prelude.{
  List, Option, Text, [], codes, get_elem?, if◌then◌else◌, is_empty, lines, map, map_opt, none,
  show_nat, some, take, ℕ, ◌++◌, ◌∷◌,
}
use vector_guard.SlowPath.Embedder.{severity_name}
use vector_guard.Tui.{EventRow, IncidentRow}
use vector_guard.Tui.App.{App, Env, PendingRow}
use vector_guard.Tui.App.Cursor.{filtered_events, filtered_incidents}
use vector_guard.Tui.Render.{format_age}

pub record Popup : Type 0 where
  pub title : Text
  pub text : List Text

abbrev pub or_else : Text → Text → Text
or_else s default = if is_empty s then default else s

abbrev pub draw_incident_detail : IncidentRow → Popup
draw_incident_detail inc = record {
  title = codes " Incident Detail ";
  text =
      []
      ∷ (codes "  Timestamp  : " ++ inc.timestamp)
      ∷ (codes "  PID        : " ++ show_nat inc.pid)
      ∷ (codes "  PPID       : " ++ show_nat inc.ppid)
      ∷ (codes "  UID        : " ++ show_nat inc.uid)
      ∷ (codes "  Process    : " ++ inc.process)
      ∷ []
      ∷ (codes "  Event      : " ++ inc.full_kind)
      ∷ (codes "  Rule       : " ++ or_else inc.rule (codes "(none)"))
      ∷ []
      ∷ (codes "  Severity   : " ++ severity_name inc.severity)
      ∷ (codes "  Action     : " ++ inc.action)
      ∷ []
      ∷ codes "  Press Esc or Enter to close"
      ∷ [];
}

abbrev pub draw_event_detail : EventRow → Popup
draw_event_detail ev = record {
  title = codes " Event Detail ";
  text =
      []
      ∷ (codes "  Timestamp  : " ++ ev.timestamp)
      ∷ (codes "  PID        : " ++ show_nat ev.pid)
      ∷ (codes "  PPID       : " ++ show_nat ev.ppid)
      ∷ (codes "  UID        : " ++ show_nat ev.uid)
      ∷ (codes "  Process    : " ++ ev.process)
      ∷ []
      ∷ (codes "  Event      : " ++ ev.full_kind)
      ∷ []
      ∷ (codes "  Severity   : " ++ severity_name ev.severity)
      ∷ (codes "  Action     : " ++ ev.action)
      ∷ []
      ∷ codes "  Press Esc or Enter to close"
      ∷ [];
}

-- The first twenty lines of the proposal.
abbrev pub body_lines : Text → List Text
body_lines toml_body = map (λ line. codes "  " ++ line) (take 20 (lines toml_body))

abbrev pub draw_pending_detail : PendingRow → Popup
draw_pending_detail p = record {
  title = codes " AI Proposal ";
  text =
      ([]
        ∷ (codes "  ID         : " ++ p.id)
        ∷ (codes "  Rule       : " ++ p.name)
        ∷ (codes "  Action     : " ++ p.action)
        ∷ (codes "  Age        : " ++ format_age p.age_secs)
        ∷ []
        ∷ codes "  Why proposed:"
        ∷ (codes "  " ++ or_else p.description (codes "(none provided)"))
        ∷ []
        ∷ codes "  TOML body:"
        ∷ [])
      ++ (body_lines p.toml_body ++ [] ∷ codes "  a:accept  r:reject  Esc/Enter:close" ∷ []);
}

abbrev pub at_index {ℓ} : {A : Type ℓ} → (A → Popup) → List A → ℕ → Option Popup
at_index detail rows idx = map_opt detail (get_elem? rows idx)

abbrev pub pending_popup : App → Option ℕ → Option Popup
pending_popup app none = none
pending_popup app (some idx) = at_index draw_pending_detail app.pending idx

module _ (env : Env) where
  abbrev pub event_popup : App → Option ℕ → Option Popup
  event_popup app none = pending_popup app app.selected_pending
  event_popup app (some idx) = at_index draw_event_detail (filtered_events env.lower app) idx

  abbrev pub incident_popup : App → Option ℕ → Option Popup
  incident_popup app none = event_popup app app.selected_event
  incident_popup app (some idx) = at_index draw_incident_detail (filtered_incidents app) idx

  -- The popup on top of the screen: that of an incident before that of an event before that of a
  -- proposal, and none where the index is behind the end of the list.
  unfoldable pub draw_popup : App → Option Popup
  draw_popup app = incident_popup app app.selected_incident
