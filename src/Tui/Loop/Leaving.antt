-- ===== src/Tui/Loop/Leaving.antt =====
-- Which keys leave the user interface, and that it can always be left.
use vector_guard.Prelude.{
  Bool, Bool-cases, ap, arith, false, false≢true, if◌then◌else◌, inl, inr, refl, sym, true, unless,
  when, ◌&&◌, ◌==◌, ◌||◌, ◌↔◌, ◌∙◌, ◌≡◌, ◌⊎◌,
}
use vector_guard.Tui.{Tab}
use vector_guard.Tui.App.{App, Env, Session}
use vector_guard.Tui.App.Cursor.{is_detail_open, close_detail}
use vector_guard.Tui.App.Editor.{cancel_config_edit}
use vector_guard.Tui.Keys.{
  KeyCode, is_config, is_pending, is_incidents, is_events, esc, enter, backspace, tab, up, down,
  char, other, press, normal_key, normal_char, is_filtering, edit_key, filter_key,
}
use vector_guard.Tui.Keys.Sound.{IsSound}

-- Neither popup nor editor nor the input of the filter is open.
abbrev pub IsNormal : App → Type 0
IsNormal a = (is_detail_open a ≡ false) × (a.config_editing ≡ false) × (is_filtering a ≡ false)

abbrev pub leaves : KeyCode → Bool
leaves esc = true
leaves (char c) = c == b'q' || c == b'Q'
leaves _ = false

abbrev quits : Session × Bool → Bool
quits t = t.1

stays :
    (b : Bool) (x y : Session × Bool) → x.1 ≡ false → y.1 ≡ false → (if b then x else y).1 ≡ false
stays true x y h i = h
stays false x y h i = i

module _ (env : Env) where
  pub press-normal :
      (k : KeyCode) (s : Session) → IsNormal s.app → press env k s ≡ normal_key env k s
  unfolding press
  press-normal k s n = unless _ _ _ n.0 ∙ unless _ _ _ n.1 ∙ unless _ _ _ n.2

  press-busy : (k : KeyCode) (s : Session) → (press env k s).1 ≡ true → IsNormal s.app
  unfolding press
  press-busy k s h = elim (Bool-cases (is_detail_open s.app)) [
    | inl e ↦ absurd (false≢true (sym (ap quits (when _ _ _ e)) ∙ h))
    | inr p ↦ elim (Bool-cases s.app.config_editing) [
      | inl e ↦ absurd (false≢true (sym (ap quits (unless _ _ _ p ∙ when _ _ _ e)) ∙ h))
      | inr e ↦ elim (Bool-cases (is_filtering s.app)) [
        | inl f ↦
            absurd
              (false≢true (sym (ap quits (unless _ _ _ p ∙ unless _ _ _ e ∙ when _ _ _ f)) ∙ h))
        | inr f ↦ (p, e, f)
      ]
    ]
  ]

  normal_key-leaves : (k : KeyCode) (s : Session) → (normal_key env k s).1 ≡ leaves k
  unfolding normal_key
  normal_key-leaves esc s = refl
  normal_key-leaves enter s = refl
  normal_key-leaves backspace s = refl
  normal_key-leaves tab s = refl
  normal_key-leaves up s = refl
  normal_key-leaves down s = refl
  normal_key-leaves other s = refl
  normal_key-leaves (char c) s = go (c == b'q' || c == b'Q') refl
    where
      here : Tab
      here = s.app.active_tab

      go : (b : Bool) → (c == b'q' || c == b'Q') ≡ b → (normal_char env c s).1 ≡ b
      go true e = ap quits (when _ _ _ e)
      go false e =
          ap quits (unless _ _ _ e)
          ∙ stays (c == b'1') _ _ refl (
              stays (c == b'2') _ _ refl (
                stays (c == b'3') _ _ refl (
                  stays (c == b'4') _ _ refl (
                    stays (c == b'5') _ _ refl (
                      stays (c == b'6') _ _ refl (
                        stays (c == b'k') _ _ refl (
                          stays (c == b'j') _ _ refl (
                            stays (c == b'e' && is_config here) _ _ refl (
                              stays (c == b's' && is_config here) _ _ refl (
                                stays (c == b'a' && is_pending here) _ _ refl (
                                  stays (c == b'r' && is_pending here) _ _ refl (
                                    stays (c == b'v' && is_pending here) _ _ refl (
                                      stays (c == b'f' && is_incidents here) _ _ refl (
                                        stays (c == b'/' && is_events here) _ _ refl
                                          refl))))))))))))))

  -- A pressed key ends the user interface exactly if neither a popup nor the editor nor the input of the
  -- filter is open, and the key is Esc, q or Q.
  pub press-leaves_iff :
      (k : KeyCode) (s : Session)
      → ((press env k s).1 ≡ true) ↔ (IsNormal s.app × (leaves k ≡ true))
  press-leaves_iff k s = (
    λ h.
        let n = press-busy k s h in
        (n, sym (normal_key-leaves k s) ∙ sym (ap quits (press-normal k s n)) ∙ h),
    λ (n, l). ap quits (press-normal k s n) ∙ normal_key-leaves k s ∙ l,
  )

-- Esc closes whatever is open, if only one thing is.
pub esc-IsNormal :
    (env : Env) (s : Session)
    → IsSound s.app
    → ((press env esc s).1 ≡ true) ⊎ IsNormal (press env esc s).0.app
unfolding press close_detail edit_key cancel_config_edit filter_key normal_key
esc-IsNormal env s h = ground arith
