-- ===== src/Tui/Keys/Pressed.antt =====
-- A pressed key keeps the user interface sound.
use vector_guard.Prelude.{
  Bool, Bool-cases, Option, Text, [], arith, codes, false, get_elem?, if◌then◌else◌, inl, inr, none,
  not, some, subst, sym, true, unless, when, ℕ, ◌≡◌,
}
use vector_guard.Approval.{Disk, approve, reject}
use vector_guard.Tui.{Tab}
use vector_guard.Tui.App.{
  AppState, Env, InputMode, PendingRow, Session, pending_accept_current, pending_reject_current,
  save_config, settle, on_current, accept_item, reject_item,
}
use vector_guard.Tui.App.Cursor.{is_detail_open}
use vector_guard.Tui.Keys.{
  KeyCode, other, enter_tab, esc, enter, backspace, tab, up, down, char, normal_char, normal_key,
  press, is_filtering,
}
use vector_guard.Tui.Keys.Sound.{
  IsSound, popup_key-IsSound, edit_key-IsSound, filter_key-IsSound, scroll_up-IsSound,
  scroll_down-IsSound, open_detail-IsSound, start_config_edit-IsSound, cycle-IsSound,
}

-- What holds of both branches holds of the choice.
pick {ℓ} : {A : Type ℓ} (P : A → Type 0) (b : Bool) (x y : A) → P x → P y → P (if b then x else y)
pick P true x y h i = h
pick P false x y h i = i

abbrev IsSoundAfter : Session × Bool → Type 0
IsSoundAfter t = IsSound t.0.app

module _ (env : Env) where
  settle-IsSound :
      {A : Type 0} (done failed : Text) (s : Session) (item : PendingRow) (r : Disk × Option A)
      → IsSound s.app
      → IsSound (settle env done failed s item r).app
  settle-IsSound done failed s item (disk, result) h = ground arith

  on_current-IsSound :
      (act : PendingRow → Session) (s : Session)
      → ((item : PendingRow) → IsSound (act item).app)
      → IsSound s.app
      → IsSound (on_current env act s).app
  on_current-IsSound act s keep h =
      go s.app.has_store (get_elem? s.app.pending s.app.pending_scroll)
    where
      go :
          (b : Bool) (o : Option PendingRow)
          → IsSound (if not b then s else elim o [ none ↦ s | some item ↦ act item ]).app
      go false o = h
      go true none = h
      go true (some item) = keep item

  accept-IsSound : (s : Session) → IsSound s.app → IsSound (pending_accept_current env s).app
  unfolding pending_accept_current
  accept-IsSound s h =
      on_current-IsSound (accept_item env s) s
        (λ item.
          settle-IsSound (codes "approved ") (codes "approve error: ") s item
            (approve env.io s.disk item.id) h)
        h

  reject-IsSound : (s : Session) → IsSound s.app → IsSound (pending_reject_current env s).app
  unfolding pending_reject_current
  reject-IsSound s h =
      on_current-IsSound (reject_item env s) s
        (λ item.
          settle-IsSound (codes "rejected ") (codes "reject error: ") s item
            (reject env.io s.disk item.id) h)
        h

  save-IsSound : (s : Session) → IsSound s.app → IsSound (save_config env s).app
  save-IsSound s h = ground arith

  module _ (s : Session) (p : is_detail_open s.app ≡ false) (e : s.app.config_editing ≡ false)
      (f : is_filtering s.app ≡ false) (h : IsSound s.app) where
    enter_tab-IsSound : IsSound (enter_tab env s.app)
    enter_tab-IsSound =
        ground
          (arith, open_detail-IsSound env.lower s.app e f h, start_config_edit-IsSound s.app p f h)

    normal_char-IsSound : (c : ℕ) → IsSound (normal_char env c s).0.app
    unfolding normal_char
    normal_char-IsSound c =
        let show : (t : Tab) → IsSound (record s.app { active_tab = t }) = λ t. ground arith in
        let stopped : IsSound (record s.app { state = AppState.quit }) = ground arith in
        let typing : IsSound
            (record s.app { input_mode = InputMode.filtering; filter_input = [] }) =
          ground arith in
        pick IsSoundAfter _ _ _ stopped (
          pick IsSoundAfter _ _ _ (show Tab.dashboard) (
            pick IsSoundAfter _ _ _ (show Tab.events) (
              pick IsSoundAfter _ _ _ (show Tab.incidents) (
                pick IsSoundAfter _ _ _ (show Tab.config) (
                  pick IsSoundAfter _ _ _ (show Tab.process_tree) (
                    pick IsSoundAfter _ _ _ (show Tab.pending) (
                      pick IsSoundAfter _ _ _ (scroll_up-IsSound env.lower s.app h) (
                        pick IsSoundAfter _ _ _ (scroll_down-IsSound env.lower s.app h) (
                          pick IsSoundAfter _ _ _ (start_config_edit-IsSound s.app p f h) (
                            pick IsSoundAfter _ _ _ (save-IsSound s h) (
                              pick IsSoundAfter _ _ _ (accept-IsSound s h) (
                                pick IsSoundAfter _ _ _ (reject-IsSound s h) (
                                  pick IsSoundAfter _ _ _
                                    (open_detail-IsSound env.lower s.app e f h)
                                    (pick IsSoundAfter _ _ _ (cycle-IsSound s.app h)
                                      (pick IsSoundAfter _ _ _ typing h)))))))))))))))

    normal_key-IsSound : (k : KeyCode) → IsSound (normal_key env k s).0.app
    unfolding normal_key
    normal_key-IsSound esc = ground arith
    normal_key-IsSound tab = ground arith
    normal_key-IsSound up = scroll_up-IsSound env.lower s.app h
    normal_key-IsSound down = scroll_down-IsSound env.lower s.app h
    normal_key-IsSound enter = enter_tab-IsSound
    normal_key-IsSound (char c) = normal_char-IsSound c
    normal_key-IsSound backspace = h
    normal_key-IsSound other = h

  pub press-IsSound : (k : KeyCode) (s : Session) → IsSound s.app → IsSound (press env k s).0.app
  unfolding press
  press-IsSound k s h = elim (Bool-cases (is_detail_open s.app)) [
    | inl e ↦ subst IsSoundAfter (sym (when _ _ _ e)) (popup_key-IsSound k s.app h)
    | inr p ↦ subst IsSoundAfter (sym (unless _ _ _ p)) (elim (Bool-cases s.app.config_editing) [
      | inl e ↦ subst IsSoundAfter (sym (when _ _ _ e)) (edit_key-IsSound k s.app p e h)
      | inr e ↦ subst IsSoundAfter (sym (unless _ _ _ e)) (elim (Bool-cases (is_filtering s.app)) [
        | inl f ↦ subst IsSoundAfter (sym (when _ _ _ f)) (filter_key-IsSound k s.app p h)
        | inr f ↦ subst IsSoundAfter (sym (unless _ _ _ f)) (normal_key-IsSound s p e f h k)
      ])
    ])
  ]
