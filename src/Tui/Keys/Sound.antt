-- ===== src/Tui/Keys/Sound.antt =====
-- What holds of the user interface between two keys.
use vector_guard.Prelude.{
  Bool, Bool-cases, List, Option-cases, Text, [], ap, arith, false, filter, inl, inr, length, refl,
  suc, true, zero, ℕ, ◌-◌, ◌<◌, ◌∷◌, ◌≡◌, ◌≤◌,
}
use vector_guard.Tui.App.{App}
use vector_guard.Tui.App.Editor.{
  set_at, raw_value, cancel_config_edit, confirm_config_edit, current_field, start_config_edit,
}
use vector_guard.Tui.App.Cursor.{
  close_detail, cycle_incident_filter, is_detail_open, open_detail, scroll_down, scroll_up,
  filtered_events, filtered_incidents, shows_event, shows_incident,
}
use vector_guard.Tui.Keys.{
  KeyCode, other, is_bool_field, toggled, esc, enter, backspace, tab, up, down, char, popup_key,
  edit_key, filter_key, is_filtering,
}

-- The cursors of the editor, of the process tree and of the proposals stand in their lists (or at 0 of
-- an empty one), those of the events and incidents below the most that are kept; outside the editor
-- its buffer is empty; at most one of popup, editor and filter input is open.
pub record IsSound (a : App) : Type 0 where
  pub field_in : a.config_field_idx ≤ length a.config_fields - 1
  pub process_in : a.proc_scroll ≤ length a.view.process_map - 1
  pub pending_in : a.pending_scroll ≤ length a.pending - 1
  pub events_kept : length a.view.events ≤ 500
  pub incidents_kept : length a.view.incidents ≤ 500
  pub event_in : a.event_scroll < 500
  pub incident_in : a.incident_scroll < 500
  pub buffer : a.config_editing ≡ false → a.config_edit_buf ≡ []
  pub popup_alone : is_detail_open a ≡ true → (a.config_editing ≡ false) × (is_filtering a ≡ false)
  pub editor_alone : a.config_editing ≡ true → is_filtering a ≡ false

pub popup_key-IsSound : (k : KeyCode) (a : App) → IsSound a → IsSound (popup_key k a)
unfolding close_detail
popup_key-IsSound k a h = ground arith

length-set_at {ℓ} : {A : Type ℓ} (i : ℕ) (x : A) (xs : List A) → length (set_at i x xs) ≡ length xs
length-set_at i x [] = refl
length-set_at zero x (y ∷ xs) = refl
length-set_at (suc i) x (y ∷ xs) = ap suc (length-set_at i x xs)

confirm-IsSound :
    (a : App)
    → is_detail_open a ≡ false
    → a.config_editing ≡ true
    → IsSound a
    → IsSound (confirm_config_edit a)
unfolding confirm_config_edit cancel_config_edit
confirm-IsSound a p e h = elim (Option-cases (current_field a)) [
  | inl n ↦ rw n (ground arith)
  | inr (f, n) ↦ rw n (
      ground (
        arith,
        length-set_at a.config_field_idx
            (record f { value = raw_value f.field_type a.config_edit_buf }) a.config_fields,
      ))
]

pub edit_key-IsSound :
    (k : KeyCode) (a : App)
    → is_detail_open a ≡ false
    → a.config_editing ≡ true
    → IsSound a
    → IsSound (edit_key k a)
unfolding edit_key cancel_config_edit
edit_key-IsSound esc a p e h = ground arith
edit_key-IsSound enter a p e h = confirm-IsSound a p e h
edit_key-IsSound backspace a p e h = ground arith
edit_key-IsSound (char c) a p e h = elim (Bool-cases (is_bool_field a)) [
  | inl b ↦ rw b (
      confirm-IsSound (record a { config_edit_buf = toggled a.config_edit_buf }) p e (ground arith))
  | inr b ↦ rw b (ground arith)
]
edit_key-IsSound tab a p e h = h
edit_key-IsSound up a p e h = h
edit_key-IsSound down a p e h = h
edit_key-IsSound other a p e h = h

pub filter_key-IsSound :
    (k : KeyCode) (a : App) → is_detail_open a ≡ false → IsSound a → IsSound (filter_key k a)
unfolding filter_key
filter_key-IsSound k a p h = ground arith

length-filter-le {ℓ} : {A : Type ℓ} (p : A → Bool) (xs : List A) → length (filter p xs) ≤ length xs
length-filter-le p [] = omega arith
length-filter-le p (x ∷ xs) = ground (arith, length-filter-le p xs)

filtered_events-le :
    (lower : Text → Text) (a : App) → length (filtered_events lower a) ≤ length a.view.events
unfolding filtered_events
filtered_events-le lower a =
    ground (arith, length-filter-le (shows_event lower (lower a.filter_query)) a.view.events)

filtered_incidents-le : (a : App) → length (filtered_incidents a) ≤ length a.view.incidents
unfolding filtered_incidents
filtered_incidents-le a = length-filter-le (shows_incident a.incident_filter) a.view.incidents

module _ (lower : Text → Text) (a : App) where
  pub scroll_up-IsSound : IsSound a → IsSound (scroll_up lower a)
  unfolding scroll_up
  scroll_up-IsSound h = ground arith

  pub scroll_down-IsSound : IsSound a → IsSound (scroll_down lower a)
  unfolding scroll_down
  scroll_down-IsSound h = ground (arith, filtered_events-le lower a, filtered_incidents-le a)

  pub open_detail-IsSound :
      a.config_editing ≡ false → is_filtering a ≡ false → IsSound a → IsSound (open_detail lower a)
  unfolding open_detail
  open_detail-IsSound e f h = ground arith

pub start_config_edit-IsSound :
    (a : App)
    → is_detail_open a ≡ false
    → is_filtering a ≡ false
    → IsSound a
    → IsSound (start_config_edit a)
unfolding start_config_edit
start_config_edit-IsSound a p f h = ground arith

pub cycle-IsSound : (a : App) → IsSound a → IsSound (cycle_incident_filter a)
unfolding cycle_incident_filter
cycle-IsSound a h = ground arith
