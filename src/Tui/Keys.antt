-- ===== src/Tui/Keys.antt =====
-- `EventHandler::handle` of vectorguard/src/tui/event.rs: what a key does to the user interface. A
-- key goes to the first of these that is open: the detail popup, the editor of a field, the input of
-- the filter, the tabs.
pub mod Sound
pub mod Pressed
pub mod Typing
pub mod Editing
pub mod Outside
use vector_guard.Prelude.{
  Bool, Option, Text, [], codes, false, if◌then◌else◌, none, some, text_eq, true, ℕ, ◌&&◌, ◌++◌,
  ◌==◌, ◌||◌, ◌∷◌,
}
use vector_guard.Tui.{Tab, next_tab}
use vector_guard.Tui.App.{
  App, AppState, Env, FieldType, InputMode, Session, pending_accept_current, pending_reject_current,
  save_config,
}
use vector_guard.Tui.App.Editor.{
  cancel_config_edit, confirm_config_edit, current_field, pop_char, start_config_edit,
}
use vector_guard.Tui.App.Cursor.{
  close_detail, cycle_incident_filter, is_detail_open, open_detail, scroll_down, scroll_up,
}

pub data KeyCode : Type 0 where
  esc enter backspace tab up down other : KeyCode
  char : ℕ → KeyCode

-- What one call finds: a failed call of the terminal, nothing within the tick, a key with whether it
-- is pressed (and not released), or an event of another kind.
pub data Input : Type 0 where
  failed idle no_key : Input
  key : Bool → KeyCode → Input

abbrev pub popup_key : KeyCode → App → App
popup_key esc app = close_detail app
popup_key enter app = close_detail app
popup_key (char c) app = if c == b'q' then close_detail app else app
popup_key _ app = app

abbrev pub is_bool_field : App → Bool
is_bool_field app = elim (current_field app) [
  | none ↦ false
  | some f ↦ elim f.field_type [ FieldType.bool ↦ true | _ ↦ false ]
]

abbrev pub toggled : Text → Text
toggled buf = if text_eq buf (codes "true") then codes "false" else codes "true"

-- A character toggles a Boolean field and confirms it, and is typed into any other.
unfoldable pub edit_key : KeyCode → App → App
unfolding cancel_config_edit confirm_config_edit pop_char
edit_key esc app = cancel_config_edit app
edit_key enter app = confirm_config_edit app
edit_key backspace app = record app { config_edit_buf = pop_char app.config_edit_buf }
edit_key (char c) app =
    if is_bool_field app
    then confirm_config_edit (record app { config_edit_buf = toggled app.config_edit_buf })
    else record app { config_edit_buf = app.config_edit_buf ++ c ∷ [] }
edit_key _ app = app

unfoldable pub filter_key : KeyCode → App → App
unfolding pop_char
filter_key esc app = record app {
  filter_input = [];
  filter_query = [];
  input_mode = InputMode.normal;
}
filter_key enter app = record app {
  filter_query = app.filter_input;
  input_mode = InputMode.normal;
  event_scroll = 0;
}
filter_key (char c) app = record app { filter_input = app.filter_input ++ c ∷ [] }
filter_key backspace app = record app { filter_input = pop_char app.filter_input }
filter_key _ app = app

abbrev pub is_config : Tab → Bool
is_config Tab.config = true
is_config _ = false

abbrev pub is_pending : Tab → Bool
is_pending Tab.pending = true
is_pending _ = false

abbrev pub is_incidents : Tab → Bool
is_incidents Tab.incidents = true
is_incidents _ = false

abbrev pub is_events : Tab → Bool
is_events Tab.events = true
is_events _ = false

abbrev pub on_app : (App → App) → Session → Session × Bool
on_app f s = (record s { app = f s.app }, false)

abbrev pub show_tab : Tab → Session → Session × Bool
show_tab t = on_app (λ app. record app { active_tab = t })

abbrev pub is_filtering : App → Bool
is_filtering app = elim app.input_mode [ InputMode.filtering ↦ true | InputMode.normal ↦ false ]

module _ (env : Env) where
  open env use {lower}

  abbrev pub enter_tab : App → App
  enter_tab app = elim app.active_tab [
    | Tab.events ↦ open_detail lower app
    | Tab.incidents ↦ open_detail lower app
    | Tab.pending ↦ open_detail lower app
    | Tab.config ↦ start_config_edit app
    | _ ↦ app
  ]

  -- The characters, in the order of the arms.
  unfoldable pub normal_char : ℕ → Session → Session × Bool
  normal_char c s =
      let here = s.app.active_tab in
      if c == b'q' || c == b'Q'
      then (record s { app = record s.app { state = AppState.quit } }, true)
      else if c == b'1'
      then show_tab Tab.dashboard s
      else if c == b'2'
      then show_tab Tab.events s
      else if c == b'3'
      then show_tab Tab.incidents s
      else if c == b'4'
      then show_tab Tab.config s
      else if c == b'5'
      then show_tab Tab.process_tree s
      else if c == b'6'
      then show_tab Tab.pending s
      else if c == b'k'
      then on_app (scroll_up lower) s
      else if c == b'j'
      then on_app (scroll_down lower) s
      else if c == b'e' && is_config here
      then on_app start_config_edit s
      else if c == b's' && is_config here
      then (save_config env s, false)
      else if c == b'a' && is_pending here
      then (pending_accept_current env s, false)
      else if c == b'r' && is_pending here
      then (pending_reject_current env s, false)
      else if c == b'v' && is_pending here
      then on_app (open_detail lower) s
      else if c == b'f' && is_incidents here
      then on_app cycle_incident_filter s
      else if c == b'/' && is_events here
      then on_app (λ app. record app { input_mode = InputMode.filtering; filter_input = [] }) s
      else (s, false)

  unfoldable pub normal_key : KeyCode → Session → Session × Bool
  unfolding normal_char
  normal_key esc s = (record s { app = record s.app { state = AppState.quit } }, true)
  normal_key tab s = on_app (λ app. record app { active_tab = next_tab app.active_tab }) s
  normal_key up s = on_app (scroll_up lower) s
  normal_key down s = on_app (scroll_down lower) s
  normal_key enter s = on_app enter_tab s
  normal_key (char c) s = normal_char c s
  normal_key _ s = (s, false)

  -- A pressed key.
  unfoldable pub press : KeyCode → Session → Session × Bool
  unfolding edit_key filter_key normal_key
  press k s =
      if is_detail_open s.app
      then on_app (popup_key k) s
      else if s.app.config_editing
      then on_app (edit_key k) s
      else if is_filtering s.app
      then on_app (filter_key k) s
      else normal_key k s

  -- `handle`: `none` is an error, and the Boolean tells whether to leave the loop.
  unfoldable pub handle : Input → Session → Session × Option Bool
  unfolding press
  handle failed s = (s, none)
  handle idle s = (s, some false)
  handle no_key s = (s, some false)
  handle (key false k) s = (s, some false)
  handle (key true k) s = let (t, leave) = press k s in (t, some leave)
