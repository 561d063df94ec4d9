-- ===== src/Samples/Interface.antt =====
-- The user interface at concrete inputs: a process tree with a cycle, keys, the loop.
use vector_guard.Prelude.{
  All, List, Text, [], codes, false, get_elem?, if◌then◌else◌, lookup, none, refl, show_nat, some,
  split_once, starts_with, text_eq, trim, trim_quotes, true, utf8, ℕ, ◌++◌, ◌==◌, ◌∷◌, ◌≡◌,
}
use vector_guard.Tui.{ProcessNode}
use vector_guard.Tui.ProcessTree.{Nodes, process_tree_rows}
use vector_guard.Tui.ProcessTree.Rows.{Descends}
use vector_guard.Tui.ProcessTree.Shown.{count, row_pids, process_tree_rows_lem}
use vector_guard.Tui.Render.Screen.{draw_footer}
use vector_guard.Tui.App.{Env, Session, ConfigField, FieldType}
use vector_guard.Tui.App.Editor.{with_approval, start_config_edit}
use vector_guard.Approval.Listing.{list_pending}
use vector_guard.Tui.ConfigText.{
  extract_toml_value, update_toml_value, entry_of, before_hash, indent_of,
}
use vector_guard.Tui.Keys.{KeyCode, esc, enter, char, key, backspace, press, is_bool_field}
use vector_guard.Tui.Keys.Sound.{IsSound}
use vector_guard.Tui.Keys.Editing.{
  IsReady, presses, presses-cancel_config_edit, presses-confirm_config_edit,
}
use vector_guard.Tui.Keys.Typing.{Written, type_keys}
use vector_guard.Tui.Keys.Outside.{press_outside, reaches_out}
use vector_guard.Tui.Loop.{Exit, Turn, keyboard, arrives, run_loop}
use vector_guard.Tui.Loop.Reached.{opened, run_loop-opened-IsSound}
use vector_guard.Tui.Loop.Escaping.{run_loop_escapes}
use vector_guard.Tui.{Tab}
use vector_guard.Samples.{bash_connects}
use vector_guard.Samples.Approvals.{all_works, empty_disk, parse}

abbrev node : ℕ → ℕ → ℕ × ProcessNode
node pid ppid = (
  pid,
  record {
    pid = pid;
    ppid = ppid;
    name = codes "sh";
    uid = 0;
    event_count = 1;
    last_action = [];
    last_seen = [];
  },
)

-- 1 is a root, 7 its child and 3 the child of 7; 8 and 9 are each other's parents.
abbrev tree : Nodes
tree = node 9 8 ∷ node 3 7 ∷ node 7 1 ∷ node 8 9 ∷ node 1 0 ∷ []

abbrev tree_rows : List (ℕ × ProcessNode)
tree_rows = (0, (node 1 0).1) ∷ (1, (node 7 1).1) ∷ (2, (node 3 7).1) ∷ []

run_tree : process_tree_rows tree ≡ some tree_rows
unfolding process_tree_rows lookup
run_tree = refl

process_tree_rows_lem_example :
    (rows : List (ℕ × ProcessNode)) × (process_tree_rows tree ≡ some rows)
    × ((d p : ℕ) → Descends tree d p → count p (row_pids rows) ≡ 1)
    × ((p : ℕ) → ((d : ℕ) → ¬ Descends tree d p) → count p (row_pids rows) ≡ 0)
    × All (λ r. Descends tree r.0 r.1.pid) rows
process_tree_rows_lem_example =
    process_tree_rows_lem tree (refl, (refl, (refl, (refl, (refl, tt)))))

abbrev pub env : Env
env = record {
  lower = λ s. s;
  parse = parse;
  io = all_works;
  save = true;
  os_error = codes "permission denied";
  now = 7_200_000_000_000;
  system_now = 100;
}

abbrev config_text : Text
config_text = codes "[system]\nlog_level = \"info\"\n"

abbrev pub session : Session
session = opened 7_200_000_000_000 config_text true empty_disk config_text

-- The configuration's tab, an event, and Enter to edit the first field.
abbrev turns : List (Env × Turn Unit)
turns =
    (env, keyboard (key true (char b'4')))
    ∷ (env, arrives bash_connects)
    ∷ (env, keyboard (key true enter))
    ∷ []

run_loop-opened-IsSound_example :
    IsSound
      (run_loop turns (opened 7_200_000_000_000 config_text true empty_disk config_text)).0.app
run_loop-opened-IsSound_example =
    run_loop-opened-IsSound 7_200_000_000_000 config_text true empty_disk config_text turns

run_editing : (run_loop turns session).0.app.config_editing ≡ true
unfolding run_loop with_approval list_pending utf8 show_nat start_config_edit
run_editing = refl

waits : (run_loop turns session).1 ≡ none
unfolding run_loop with_approval list_pending utf8 show_nat start_config_edit
waits = refl

run_loop_escapes_example :
    (run_loop
      (turns ++ (env, keyboard (key true esc)) ∷ (env, keyboard (key true esc)) ∷ [])
      session).1
    ≡ some Exit.left
run_loop_escapes_example =
    run_loop_escapes 7_200_000_000_000 config_text true empty_disk config_text turns [] env env
      waits

-- The same session on the configuration's tab.
abbrev on_config : Session
on_config = record session { app = record session.app { active_tab = Tab.config } }

abbrev log_level : ConfigField
log_level = record {
  section = codes "system";
  label = codes "log_level";
  toml_key = codes "log_level";
  description = codes "debug / info / warn / error";
  value = codes "\"info\"";
  field_type = FieldType.str;
}

ready : IsReady on_config log_level
unfolding with_approval extract_toml_value starts_with trim text_eq entry_of split_once before_hash
ready = record { no_popup = refl; no_edit = refl; no_filter = refl; on_config = refl; here = refl }

not_bool : is_bool_field on_config.app ≡ false
unfolding with_approval
not_bool = refl

no_buffer : on_config.app.config_edit_buf ≡ []
unfolding with_approval
no_buffer = refl

-- Two characters are deleted and one is typed.
abbrev typing : List KeyCode
typing = backspace ∷ backspace ∷ char b'x' ∷ []

presses-cancel_config_edit_example :
    presses env (enter ∷ (typing ++ esc ∷ [])) on_config ≡ on_config
presses-cancel_config_edit_example =
    presses-cancel_config_edit env on_config log_level ready typing not_bool no_buffer
      (refl, (refl, (refl, tt)))

presses-confirm_config_edit_example :
    (raw : Text) × (fields : List ConfigField) × Written FieldType.str
      (type_keys (trim_quotes (codes "\"info\"")) typing)
      raw
    × ((j : ℕ)
        → get_elem? fields j ≡ (
            if on_config.app.config_field_idx == j
            then some (record log_level { value = raw })
            else get_elem? on_config.app.config_fields j))
    × (presses env (enter ∷ (typing ++ enter ∷ [])) on_config ≡ record on_config {
      app = record on_config.app {
        config_text =
            update_toml_value on_config.app.config_text log_level.section log_level.toml_key raw;
        config_fields = fields;
        config_modified = true;
      };
    })
presses-confirm_config_edit_example =
    presses-confirm_config_edit env on_config log_level ready typing not_bool no_buffer
      (refl, (refl, (refl, tt)))

run_confirm :
    (presses env (enter ∷ (typing ++ enter ∷ [])) on_config).app.config_text
    ≡ codes "[system]\nlog_level = \"inx\""
unfolding press with_approval trim trim_quotes start_config_edit update_toml_value starts_with
    text_eq entry_of split_once before_hash indent_of extract_toml_value
run_confirm = refl

quiet : reaches_out (char b's') session.app ≡ false
unfolding with_approval
quiet = refl

press_outside_example :
    ((press env (char b's') session).0.disk ≡ empty_disk)
    × ((press env (char b's') session).0.config_file ≡ config_text)
press_outside_example = press_outside env (char b's') session quiet

run_footer :
    draw_footer on_config.app ≡ codes " q:quit  Tab/1-5:switch  ↑↓/jk:select  e/Enter:edit  s:save"
unfolding draw_footer with_approval
run_footer = refl
