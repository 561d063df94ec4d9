-- ===== src/Tui/Keys/Editing.antt =====
-- Editing one field of the configuration, from Enter to Enter or Esc.
use vector_guard.Prelude.{
  All, Bool, List, Option, Text, [], ap, ap₂, false, get_elem?, if◌then◌else◌, none, refl, some,
  sym, trim_quotes, true, unless, unwrap_or, ℕ, ◌++◌, ◌==◌, ◌∙◌, ◌∷◌, ◌≡◌,
}
use vector_guard.Tui.{Tab}
use vector_guard.Tui.App.{Env, ConfigField, Session}
use vector_guard.Tui.ConfigText.{update_toml_value}
use vector_guard.Tui.App.Cursor.{is_detail_open, open_detail}
use vector_guard.Tui.App.Editor.{
  current_field, start_config_edit, cancel_config_edit, confirm_config_edit, write_field, raw_value,
  set_at,
}
use vector_guard.Tui.Keys.{
  KeyCode, esc, enter, backspace, tab, up, down, char, other, press, normal_key, is_filtering,
  edit_key, on_app, is_bool_field,
}
use vector_guard.Tui.Keys.Typing.{
  type_key, type_keys, is_typing, Written, pop_char-take, raw_value-Written, get_elem?-set_at,
}

-- Keys that are pressed one after another.
abbrev pub presses : Env → List KeyCode → Session → Session
presses env [] s = s
presses env (k ∷ ks) s = presses env ks (press env k s).0

abbrev pub edited : Session → Text → Session
edited s b = record s { app = record s.app { config_edit_buf = b; config_editing = true } }

presses-append :
    (env : Env) (ks js : List KeyCode) (s : Session)
    → presses env (ks ++ js) s ≡ presses env js (presses env ks s)
presses-append env [] js s = refl
presses-append env (k ∷ ks) js s = presses-append env ks js (press env k s).0

abbrev after : Session × Bool → Session
after t = t.0

-- The conditions under which Enter starts to edit the field `f`.
pub record IsReady (s : Session) (f : ConfigField) : Type 0 where
  pub no_popup : is_detail_open s.app ≡ false
  pub no_edit : s.app.config_editing ≡ false
  pub no_filter : is_filtering s.app ≡ false
  pub on_config : s.app.active_tab ≡ Tab.config
  pub here : current_field s.app ≡ some f

module _ (env : Env) (s : Session) (f : ConfigField) (r : IsReady s f) where
  start : (press env enter s).0 ≡ edited s (trim_quotes f.value)
  unfolding press normal_key start_config_edit
  start =
      ap after (unless _ _ _ r.no_popup ∙ unless _ _ _ r.no_edit ∙ unless _ _ _ r.no_filter)
      ∙ ap (λ a. record s { app = a })
          (on_tab s.app.active_tab r.on_config ∙ on_field (current_field s.app) r.here)
    where
      on_tab :
          (t : Tab)
          → t ≡ Tab.config
          → elim t [
            | Tab.events ↦ open_detail env.lower s.app
            | Tab.incidents ↦ open_detail env.lower s.app
            | Tab.pending ↦ open_detail env.lower s.app
            | Tab.config ↦ start_config_edit s.app
            | _ ↦ s.app
          ]
            ≡ start_config_edit s.app
      on_tab Tab.config e = refl
      on_tab Tab.dashboard e = cc
      on_tab Tab.events e = cc
      on_tab Tab.incidents e = cc
      on_tab Tab.process_tree e = cc
      on_tab Tab.pending e = cc

      on_field :
          (o : Option ConfigField)
          → o ≡ some f
          → elim o [
            | none ↦ s.app
            | some g ↦ record s.app { config_edit_buf = trim_quotes g.value; config_editing = true }
          ]
            ≡ (edited s (trim_quotes f.value)).app
      on_field none e = cc
      on_field (some g) e =
          ap
            (λ o. record s.app {
              config_edit_buf = trim_quotes (unwrap_or o f).value;
              config_editing = true;
            })
            e

  press-edit :
      (k : KeyCode) (b : Text) → press env k (edited s b) ≡ on_app (edit_key k) (edited s b)
  unfolding press
  press-edit k b = unless (is_detail_open s.app) _ _ r.no_popup

  type-press :
      (k : KeyCode) (b : Text)
      → is_bool_field s.app ≡ false
      → is_typing k ≡ true
      → (press env k (edited s b)).0 ≡ edited s (type_key b k)
  unfolding edit_key
  type-press k b n t = ap after (press-edit k b) ∙ go k t
    where
      go :
          (j : KeyCode)
          → is_typing j ≡ true
          → (on_app (edit_key j) (edited s b)).0 ≡ edited s (type_key b j)
      go (char c) h = ap (λ a. record s { app = a }) (unless _ _ _ n)
      go esc h = cc
      go enter h = cc
      go backspace h =
          ap (λ t. record s { app = record s.app { config_edit_buf = t; config_editing = true } })
            (pop_char-take b)
      go tab h = refl
      go up h = refl
      go down h = refl
      go other h = refl

  type-presses :
      (ks : List KeyCode) (b : Text)
      → is_bool_field s.app ≡ false
      → All (λ k. is_typing k ≡ true) ks
      → presses env ks (edited s b) ≡ edited s (type_keys b ks)
  type-presses [] b n t = refl
  type-presses (k ∷ ks) b n t =
      ap (presses env ks) (type-press k b n t.0) ∙ type-presses ks (type_key b k) n t.1

  presses-start :
      (ks : List KeyCode) (last : KeyCode)
      → is_bool_field s.app ≡ false
      → All (λ k. is_typing k ≡ true) ks
      → presses env (enter ∷ (ks ++ last ∷ [])) s
        ≡ (on_app (edit_key last) (edited s (type_keys (trim_quotes f.value) ks))).0
  presses-start ks last n t =
      ap (presses env (ks ++ last ∷ [])) start
      ∙ presses-append env ks (last ∷ []) (edited s (trim_quotes f.value))
      ∙ ap (presses env (last ∷ [])) (type-presses ks (trim_quotes f.value) n t)
      ∙ ap after (press-edit last (type_keys (trim_quotes f.value) ks))

  -- Pressing Enter on a field, typing anything and pressing Esc leaves everything as it was.
  -- Conditions: the configuration's tab shows a field that is not Boolean, nothing else is open and the
  -- edit buffer is empty (as it always is outside the editor); no key in between is Esc or Enter.
  pub presses-cancel_config_edit :
      (ks : List KeyCode)
      → is_bool_field s.app ≡ false
      → s.app.config_edit_buf ≡ []
      → All (λ k. is_typing k ≡ true) ks
      → presses env (enter ∷ (ks ++ esc ∷ [])) s ≡ s
  unfolding edit_key cancel_config_edit
  presses-cancel_config_edit ks n e t =
      presses-start ks esc n t
      ∙ ap₂ (λ x y. record s { app = record s.app { config_editing = x; config_edit_buf = y } })
          (sym r.no_edit) (sym e)

  confirmed :
      (ks : List KeyCode)
      → is_bool_field s.app ≡ false
      → s.app.config_edit_buf ≡ []
      → All (λ k. is_typing k ≡ true) ks
      → let raw = raw_value f.field_type (type_keys (trim_quotes f.value) ks) in
        presses env (enter ∷ (ks ++ enter ∷ [])) s ≡ record s { app = write_field s.app raw f }
  unfolding edit_key confirm_config_edit cancel_config_edit
  confirmed ks n e t =
      let b = type_keys (trim_quotes f.value) ks in
      presses-start ks enter n t
      ∙ ap
          (λ o. record s {
            app = cancel_config_edit (elim o [
              | none ↦ (edited s b).app
              | some g ↦ write_field (edited s b).app (raw_value g.field_type b) g
            ]);
          })
          r.here
      ∙ ap₂
          (λ x y. record s {
            app = record (write_field s.app (raw_value f.field_type b) f) {
              config_editing = x;
              config_edit_buf = y;
            };
          })
          (sym r.no_edit) (sym e)

  -- Pressing Enter on a field, typing and pressing Enter again changes three things and nothing else:
  -- the value that was typed (behind the old one; a backspace takes off the last character), trimmed
  -- and between quotes exactly for a text field, is set under the section and the key of the field in
  -- the text of the configuration, and is the value of the field, and of no other field; and the
  -- configuration is marked as changed. Conditions: as for leaving with Esc.
  pub presses-confirm_config_edit :
      (ks : List KeyCode)
      → is_bool_field s.app ≡ false
      → s.app.config_edit_buf ≡ []
      → All (λ k. is_typing k ≡ true) ks
      → (raw : Text) × (fields : List ConfigField) × Written f.field_type
          (type_keys (trim_quotes f.value) ks)
          raw
        × ((j : ℕ)
            → get_elem? fields j ≡ (
                if s.app.config_field_idx == j
                then some (record f { value = raw })
                else get_elem? s.app.config_fields j))
        × (presses env (enter ∷ (ks ++ enter ∷ [])) s ≡ record s {
          app = record s.app {
            config_text = update_toml_value s.app.config_text f.section f.toml_key raw;
            config_fields = fields;
            config_modified = true;
          };
        })
  presses-confirm_config_edit ks n e t =
      let raw = raw_value f.field_type (type_keys (trim_quotes f.value) ks) in
      (
        raw,
        set_at s.app.config_field_idx (record f { value = raw }) s.app.config_fields,
        raw_value-Written f.field_type (type_keys (trim_quotes f.value) ks),
        λ j.
            get_elem?-set_at s.app.config_field_idx j (record f { value = raw }) f
              s.app.config_fields r.here,
        confirmed ks n e t,
      )
