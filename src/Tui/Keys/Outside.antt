-- ===== src/Tui/Keys/Outside.antt =====
-- Which keys reach the directories of the proposals and the configuration file.
use vector_guard.Prelude.{
  Bool, Bool-cases, arith, false, if◌then◌else◌, inl, inr, not, refl, subst, sym, true, unless,
  when, ℕ, ◌&&◌, ◌==◌, ◌||◌, ◌≡◌,
}
use vector_guard.Tui.{Tab}
use vector_guard.Tui.App.{App, Env, Session}
use vector_guard.Tui.App.Cursor.{is_detail_open}
use vector_guard.Tui.Keys.{
  KeyCode, esc, enter, backspace, tab, up, down, char, other, press, normal_key, normal_char,
  is_filtering, is_pending, is_config, is_events, is_incidents, on_app, enter_tab,
}

-- Nothing outside is changed.
abbrev pub Untouched : Session → Session × Bool → Type 0
Untouched s t = (t.0.disk ≡ s.disk) × (t.0.config_file ≡ s.config_file)

-- The keys that may change something outside, on their tabs.
abbrev pub acts : KeyCode → Tab → Bool
acts (char c) Tab.pending = c == b'a' || c == b'r'
acts (char c) Tab.config = c == b's'
acts _ _ = false

quiet :
    (s : Session) (b : Bool) (x y : Session × Bool)
    → Untouched s x
    → Untouched s y
    → Untouched s (if b then x else y)
quiet s true x y h i = h
quiet s false x y h i = i

-- Neither popup nor editor nor filter input is open, and the key is one of them.
abbrev pub reaches_out : KeyCode → App → Bool
reaches_out k a =
    not (is_detail_open a) && not a.config_editing && not (is_filtering a) && acts k a.active_tab

acts-none :
    (c : ℕ) (t : Tab)
    → acts (char c) t ≡ false
    → ((c == b's' && is_config t) ≡ false)
      × ((c == b'a' && is_pending t) ≡ false)
      × ((c == b'r' && is_pending t) ≡ false)
acts-none c t h = ground arith

quiet_unless :
    (s : Session) (b : Bool) (x y : Session × Bool)
    → b ≡ false
    → Untouched s y
    → Untouched s (if b then x else y)
quiet_unless s true x y h i = cc
quiet_unless s false x y h i = i

module _ (env : Env) (s : Session) where
  same : Untouched s (s, false)
  same = (refl, refl)

  enter_quiet : Untouched s (on_app (enter_tab env) s)
  enter_quiet = (refl, refl)

  char_quiet : (c : ℕ) → acts (char c) s.app.active_tab ≡ false → Untouched s (normal_char env c s)
  unfolding normal_char
  char_quiet c h =
      let here = s.app.active_tab in
      let (no_save, no_accept, no_reject) = acts-none c here h in
      quiet s (c == b'q' || c == b'Q') _ _ same (
        quiet s (c == b'1') _ _ same (
          quiet s (c == b'2') _ _ same (
            quiet s (c == b'3') _ _ same (
              quiet s (c == b'4') _ _ same (
                quiet s (c == b'5') _ _ same (
                  quiet s (c == b'6') _ _ same (
                    quiet s (c == b'k') _ _ same (
                      quiet s (c == b'j') _ _ same (
                        quiet s (c == b'e' && is_config here) _ _ same (
                          quiet_unless s _ _ _ no_save (
                            quiet_unless s _ _ _ no_accept (
                              quiet_unless s _ _ _ no_reject (
                                quiet s (c == b'v' && is_pending here) _ _ same (
                                  quiet s (c == b'f' && is_incidents here) _ _ same (
                                    quiet s (c == b'/' && is_events here) _ _ same
                                      same)))))))))))))))

  key_quiet : (k : KeyCode) → acts k s.app.active_tab ≡ false → Untouched s (normal_key env k s)
  unfolding normal_key
  key_quiet esc h = same
  key_quiet enter h = same
  key_quiet backspace h = same
  key_quiet tab h = same
  key_quiet up h = same
  key_quiet down h = same
  key_quiet other h = same
  key_quiet (char c) h = char_quiet c h

-- A key changes neither the directories of the proposals nor the configuration file, except for a and r
-- on the tab of the proposals and s on the tab of the configuration, with neither popup nor editor nor
-- filter input open.
pub press_outside :
    (env : Env) (k : KeyCode) (s : Session)
    → reaches_out k s.app ≡ false
    → ((press env k s).0.disk ≡ s.disk) × ((press env k s).0.config_file ≡ s.config_file)
unfolding press
press_outside env k s h = elim (Bool-cases (is_detail_open s.app)) [
  | inl e ↦ subst (Untouched s) (sym (when _ _ _ e)) (refl, refl)
  | inr p ↦ subst (Untouched s) (sym (unless _ _ _ p)) (elim (Bool-cases s.app.config_editing) [
    | inl e ↦ subst (Untouched s) (sym (when _ _ _ e)) (refl, refl)
    | inr e ↦ subst (Untouched s) (sym (unless _ _ _ e)) (elim (Bool-cases (is_filtering s.app)) [
      | inl f ↦ subst (Untouched s) (sym (when _ _ _ f)) (refl, refl)
      | inr f ↦ subst (Untouched s) (sym (unless _ _ _ f)) (key_quiet env s k (ground arith))
    ])
  ])
]
