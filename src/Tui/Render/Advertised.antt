-- ===== src/Tui/Render/Advertised.antt =====
-- The keys that vectorguard/src/tui/render.rs names on the screen, against what
-- vectorguard/src/tui/event.rs does with them.
use vector_guard.Prelude.{
  Bool, ap, codes, false, if◌then◌else◌, is_empty, none, refl, some, true, unless, when, ◌++◌, ◌==◌,
  ◌∙◌, ◌≡◌,
}
use vector_guard.Tui.App.{App, AppState, Env, Session}
use vector_guard.Tui.App.Cursor.{close_detail, is_detail_open}
use vector_guard.Tui.Keys.{
  KeyCode, backspace, char, down, enter, esc, normal_key, other, popup_key, press, tab, up,
}
use vector_guard.Tui.Loop.Leaving.{IsNormal, press-normal}
use vector_guard.Tui.Render.{search_box}
use vector_guard.Tui.Render.Popup.{draw_popup}
use vector_guard.Tui.Render.Screen.{draw}

abbrev pub closes : KeyCode → Bool
closes esc = true
closes enter = true
closes (char c) = c == b'q'
closes _ = false

popup_key-closes :
    (k : KeyCode) (app : App) → popup_key k app ≡ (if closes k then close_detail app else app)
popup_key-closes esc app = refl
popup_key-closes enter app = refl
popup_key-closes (char c) app = refl
popup_key-closes backspace app = refl
popup_key-closes tab app = refl
popup_key-closes up app = refl
popup_key-closes down app = refl
popup_key-closes other app = refl

-- While a popup is open, Esc, Enter and q take it off the screen and every other key does nothing,
-- also a and r, which the popup of a proposal offers.
press_popup :
    (env : Env) (k : KeyCode) (s : Session)
    → is_detail_open s.app ≡ true
    → (closes k ≡ true → (draw env (press env k s).0.app).popup ≡ none)
      × (closes k ≡ false → press env k s ≡ (s, false))
unfolding press draw draw_popup close_detail
press_popup env k s open_now =
    let e : press env k s ≡ (record s { app = popup_key k s.app }, false) = when _ _ _ open_now in
    (
      λ c.
          ap (λ r. draw_popup env r.0.app) e
          ∙ ap (draw_popup env) (popup_key-closes k s.app ∙ when _ _ _ c),
      λ c. e ∙ ap (λ a. (record s { app = a }, false)) (popup_key-closes k s.app ∙ unless _ _ _ c),
    )

-- Where a filter is applied, the search box says that Esc clears it; Esc leaves the program instead.
esc-search_box :
    (env : Env) (s : Session)
    → IsNormal s.app
    → is_empty s.app.filter_query ≡ false
    → (search_box s.app ≡ some (s.app.filter_query ++ codes "  (Esc to clear)"))
      × (press env esc s ≡ (record s { app = record s.app { state = AppState.quit } }, true))
unfolding normal_key
esc-search_box env s n e = (unless _ _ _ n.2 ∙ unless _ _ _ e, press-normal env esc s n)
