-- ===== src/Samples/Screen.antt =====
-- The user interface on a few events.
use vector_guard.Prelude.{
  All, List, Text, [], all, arith, codes, false, length, lines, none, not, refl, show_nat, some,
  split_once, starts_with, text_eq, trim, trim_end, trim_start, true, utf8, ◌%◌, ◌++◌, ◌+◌, ◌<◌,
  ◌==◌, ◌^◌, ◌↔◌, ◌∷◌, ◌≡◌,
}
use vector_guard.Event.{Action, EventType, NormalizedEvent}
use vector_guard.Tui.{Tab, View, next_tab, push_events, shorten}
use vector_guard.Tui.Shortening.{Boundary, shorten-none_iff}
use vector_guard.Tui.History.{Shows, incident_rows, last_500, push_events_lem, rows}
use vector_guard.Tui.ConfigText.{
  before_hash, entry_of, extract_toml_value, target_of, update_toml_value,
}
use vector_guard.Tui.ConfigText.Edited.{KeyOk, ValueOk, has_key}
use vector_guard.Tui.ConfigText.Roundtrip.{UnixText, extract_toml_value-update_toml_value}
use vector_guard.Samples.{bash_connects, event_of}

abbrev fresh_view : View
fresh_view = record {
  stats = record { total_events = 0; blocked = 0; alerts = 0; high_severity = 0 };
  events = [];
  incidents = [];
  process_map = [];
}

abbrev nc_stopped : NormalizedEvent Unit
nc_stopped = event_of (codes "nc") EventType.exec Action.blocked

abbrev two_events : List (NormalizedEvent Unit)
two_events = bash_connects ∷ nc_stopped ∷ []

shows : All Shows two_events
unfolding shorten utf8 show_nat
shows = ((codes "Net:4444", refl), ((codes "Exec", refl), tt))

push_events_lem_example :
    (w : View) × (push_events fresh_view two_events ≡ some w)
    × (w.events ≡ last_500 (rows two_events))
    × (w.incidents ≡ last_500 (incident_rows two_events))
    × (w.stats.total_events ≡ (0 + 2) % 2 ^ 64)
push_events_lem_example =
    push_events_lem fresh_view two_events (omega arith) (omega arith) (omega arith) shows

-- Thirty-three characters and then three bytes each: the thirty-ninth byte is inside of a character.
abbrev long_kind : Text
long_kind = codes "File:/var/lib/containers/abcdef/x" ++ 0xd55c ∷ 0xae00 ∷ 0xd55c ∷ 0xae00 ∷ []

shorten-none_iff_example :
    (shorten (0x61 ∷ long_kind) ≡ none)
    ↔ ((40 < length (utf8 (0x61 ∷ long_kind))) × (¬ Boundary 39 (0x61 ∷ long_kind)))
shorten-none_iff_example = shorten-none_iff (0x61 ∷ long_kind)

run_panics : shorten (0x61 ∷ long_kind) ≡ none
unfolding shorten utf8
run_panics = refl

run_all_tabs :
    next_tab (next_tab (next_tab (next_tab (next_tab (next_tab Tab.dashboard))))) ≡ Tab.dashboard
unfolding next_tab
run_all_tabs = refl

abbrev config_text : Text
config_text = codes "[slow_path]\nenabled = true # on\n[fast_path]\n  enabled = true\n"

abbrev fast_section : Text
fast_section = codes "fast_path"

abbrev enabled_key : Text
enabled_key = codes "enabled"

enabled_ok : KeyOk enabled_key
enabled_ok = record {
  first = b'e';
  others = codes "nabled";
  split = refl;
  no_bracket = refl;
  plain = (refl, (refl, (refl, (refl, (refl, (refl, (refl, tt)))))));
}

false_ok : ValueOk (codes "false")
unfolding trim_start trim_end
false_ok = record {
  nonempty = λ e. cc;
  no_hash = (refl, (refl, (refl, (refl, (refl, tt)))));
  start = refl;
  stop = refl;
}

unix_of : (s : Text) → all (λ c. not (c == 13)) s ≡ true → UnixText s
unix_of [] h = tt
unix_of (c ∷ s) h = (ground arith, unix_of s (ground arith))

no_returns : UnixText config_text
no_returns = unix_of config_text refl

stands : has_key (target_of fast_section) enabled_key false (lines config_text) ≡ true
unfolding has_key lines trim starts_with text_eq split_once entry_of before_hash
stands = refl

extract_toml_value-update_toml_value_example :
    extract_toml_value
      (update_toml_value config_text fast_section enabled_key (codes "false"))
      fast_section
      enabled_key
    ≡ codes "false"
extract_toml_value-update_toml_value_example =
    extract_toml_value-update_toml_value config_text fast_section enabled_key (codes "false")
      no_returns enabled_ok false_ok (refl, (refl, (refl, (refl, (refl, tt))))) stands
