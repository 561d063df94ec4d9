-- ===== src/Tui/Render/Highlighted.antt =====
-- The rows that vectorguard/src/tui/render.rs highlights, and the keys of vectorguard/src/tui/event.rs
-- that act on them.
use vector_guard.Prelude.{
  List, Option, Text, [], ap, codes, false, get_elem?, if◌then◌else◌, is_empty, is_some, lookup,
  map, map_opt, none, not, refl, some, subst, suc, sym, text_eq, true, unless, when, zero, ℕ, ◌&&◌,
  ◌++◌, ◌||◌, ◌∙◌, ◌∷◌, ◌≡◌,
}
use vector_guard.Approval.{Disk, approved_name, files_of, pending_name}
use vector_guard.Approval.Directories.{approve-lookup, reject-lookup}
use vector_guard.Tui.{Tab}
use vector_guard.Tui.App.{
  App, Env, PendingRow, Session, accept_item, on_current, pending_accept_current,
  pending_reject_current, reject_item,
}
use vector_guard.Tui.App.Cursor.{open_detail}
use vector_guard.Tui.Keys.{char, is_pending, normal_char, normal_key, press}
use vector_guard.Tui.Loop.Leaving.{IsNormal, press-normal}
use vector_guard.Tui.Render.{Cell, plain, draw_pending, pending_cells, select}
use vector_guard.Tui.Render.Popup.{
  Popup, draw_pending_detail, draw_popup, event_popup, incident_popup,
}

get_elem?-map {ℓ κ} :
    {A : Type ℓ} {B : Type κ} (f : A → B) (xs : List A) (i : ℕ) (y : B)
    → get_elem? (map f xs) i ≡ some y
    → (x : A) × (get_elem? xs i ≡ some x) × (y ≡ f x)
get_elem?-map f [] i y h = cc
get_elem?-map f (x ∷ xs) zero y h = (x, refl, cc)
get_elem?-map f (x ∷ xs) (suc i) y h = get_elem?-map f xs i y h

select-some :
    {A : Type 0} (rows : List A) (scroll i : ℕ)
    → select rows scroll ≡ some i
    → (scroll ≡ i) × (is_empty rows ≡ false)
select-some [] scroll i h = cc
select-some (x ∷ rows) scroll i h = (cc, refl)

module _ (env : Env) (s : Session) where
  on_current-here :
      (act : PendingRow → Session) (p : PendingRow)
      → s.app.has_store ≡ true
      → get_elem? s.app.pending s.app.pending_scroll ≡ some p
      → on_current env act s ≡ act p
  on_current-here act p st e =
      unless (not s.app.has_store) _ _ (rw st refl)
      ∙ ap (λ o. elim o [ none ↦ s | some item ↦ act item ]) e

  -- A proposal is highlighted and nothing else has the keys.
  pub record Highlights (i : ℕ) (cells : List Cell) : Type 0 where
    pub normal : IsNormal s.app
    pub on_pending : s.app.active_tab ≡ Tab.pending
    pub store : s.app.has_store ≡ true
    pub selected : (draw_pending s.app).selected ≡ some i
    pub row : get_elem? (draw_pending s.app).rows i ≡ some cells

  on_tab : s.app.active_tab ≡ Tab.pending → is_pending s.app.active_tab ≡ true
  on_tab e = rw e refl

  none_open : IsNormal s.app → (s.app.selected_incident ≡ none) × (s.app.selected_event ≡ none)
  none_open n =
      let (b, a) = go s.app.selected_event s.app.selected_incident s.app.selected_pending n.0 in
      (a, b)
    where
      go :
          (a b c : Option ℕ)
          → (is_some a || is_some b || is_some c) ≡ false
          → (a ≡ none) × (b ≡ none)
      go none none c h = (refl, refl)
      go none (some b) c h = cc
      go (some a) b c h = cc

  accepts :
      (p : PendingRow)
      → IsNormal s.app
      → s.app.active_tab ≡ Tab.pending
      → s.app.has_store ≡ true
      → get_elem? s.app.pending s.app.pending_scroll ≡ some p
      → press env (char b'a') s ≡ (accept_item env s p, false)
  unfolding normal_key normal_char pending_accept_current
  accepts p n t st e =
      press-normal env (char b'a') s n
      ∙ when _ _ _ (on_tab t)
      ∙ ap (λ r. (r, false)) (on_current-here (accept_item env s) p st e)

  rejects :
      (p : PendingRow)
      → IsNormal s.app
      → s.app.active_tab ≡ Tab.pending
      → s.app.has_store ≡ true
      → get_elem? s.app.pending s.app.pending_scroll ≡ some p
      → press env (char b'r') s ≡ (reject_item env s p, false)
  unfolding normal_key normal_char pending_reject_current
  rejects p n t st e =
      press-normal env (char b'r') s n
      ∙ when _ _ _ (on_tab t)
      ∙ ap (λ r. (r, false)) (on_current-here (reject_item env s) p st e)

  abbrev showing : App
  showing = record s.app { selected_pending = some s.app.pending_scroll }

  detail_opened :
      s.app.active_tab ≡ Tab.pending
      → is_empty s.app.pending ≡ false
      → open_detail env.lower s.app ≡ showing
  unfolding open_detail
  detail_opened t ne = rw t (unless _ _ _ ne)

  popup_shown :
      (p : PendingRow)
      → IsNormal s.app
      → get_elem? s.app.pending s.app.pending_scroll ≡ some p
      → draw_popup env showing ≡ some (draw_pending_detail p)
  unfolding draw_popup
  popup_shown p n e =
      let (a, b) = none_open n in
      ap (incident_popup env showing) a
      ∙ ap (event_popup env showing) b
      ∙ ap (map_opt draw_pending_detail) e

  opens :
      (p : PendingRow)
      → IsNormal s.app
      → s.app.active_tab ≡ Tab.pending
      → is_empty s.app.pending ≡ false
      → get_elem? s.app.pending s.app.pending_scroll ≡ some p
      → draw_popup env (press env (char b'v') s).0.app ≡ some (draw_pending_detail p)
  unfolding normal_key normal_char
  opens p n t ne e =
      ap (λ r. draw_popup env r.0.app) (press-normal env (char b'v') s n ∙ when _ _ _ (on_tab t))
      ∙ ap (draw_popup env) (detail_opened t ne)
      ∙ popup_shown p n e

  -- The disk after a: the file of `p`, if it is still there, stands in the rules directory under its
  -- approved name and no longer among the proposals; every other file is where it was.
  abbrev pub Approved : PendingRow → Disk → Type 0
  Approved p after =
      (name : Text)
      → let file = lookup text_eq (pending_name p.id) (files_of s.disk.pending) in
        (lookup text_eq name (files_of after.pending) ≡ (
          if text_eq (pending_name p.id) name
          then none
          else lookup text_eq name (files_of s.disk.pending)))
        × (lookup text_eq name (files_of after.approved) ≡ (
            if text_eq (approved_name p.id) name && is_some file
            then file
            else lookup text_eq name (files_of s.disk.approved)))

  -- The disk after r: the file of `p` is gone, and every other file is where it was.
  abbrev pub Rejected : PendingRow → Disk → Type 0
  Rejected p after =
      (name : Text)
      → (lookup text_eq name (files_of after.pending) ≡ (
          if text_eq (pending_name p.id) name
          then none
          else lookup text_eq name (files_of s.disk.pending)))
        × (lookup text_eq name (files_of after.approved)
            ≡ lookup text_eq name (files_of s.disk.approved))

  -- The popup with the identifier and the name of `p`.
  abbrev pub Shows : PendingRow → Option Popup → Type 0
  Shows p popup =
      (shown : Popup) × (popup ≡ some shown)
      × (get_elem? shown.text 1 ≡ some (codes "  ID         : " ++ p.id))
      × (get_elem? shown.text 2 ≡ some (codes "  Rule       : " ++ p.name))

  accept_item-Approved :
      (p : PendingRow)
      → env.io.create_dir ≡ true
      → env.io.rename (pending_name p.id) ≡ true
      → Approved p (accept_item env s p).disk
  accept_item-Approved p c r name = approve-lookup env.io s.disk p.id name c r

  reject_item-Rejected :
      (p : PendingRow)
      → env.io.remove_file (pending_name p.id) ≡ true
      → Rejected p (reject_item env s p).disk
  reject_item-Rejected p c name = reject-lookup env.io s.disk p.id name c

  -- Where the tab of the proposals, with a store, highlights a row and nothing else has the keys, the
  -- row is that of one proposal, and the keys act on it and on no other: a moves its file to the rules,
  -- under its approved name, r deletes its file, every other file of both directories stays, and v
  -- opens the popup with its identifier and its name. Condition: the calls of the file system succeed;
  -- if the file has vanished, a and r leave the directories as they are.
  pub press-highlighted :
      (i : ℕ) (cells : List Cell)
      → Highlights i cells
      → env.io.create_dir ≡ true
      → ((name : Text) → env.io.rename name ≡ true)
      → ((name : Text) → env.io.remove_file name ≡ true)
      → (p : PendingRow) × (get_elem? s.app.pending i ≡ some p)
        × (get_elem? cells 1 ≡ some (p.name, plain))
        × Approved p (press env (char b'a') s).0.disk
        × Rejected p (press env (char b'r') s).0.disk
        × Shows p (draw_popup env (press env (char b'v') s).0.app)
  unfolding draw_pending
  press-highlighted i cells h c r d =
      let (at, ne) = select-some s.app.pending s.app.pending_scroll i h.selected in
      let (p, e, row) = get_elem?-map pending_cells s.app.pending i cells h.row in
      let here : get_elem? s.app.pending s.app.pending_scroll ≡ some p = rw at e in
      (
        p,
        e,
        ap (λ l. get_elem? l 1) row,
        subst (λ t. Approved p t.0.disk) (sym (accepts p h.normal h.on_pending h.store here))
            (accept_item-Approved p c (r (pending_name p.id))),
        subst (λ t. Rejected p t.0.disk) (sym (rejects p h.normal h.on_pending h.store here))
            (reject_item-Rejected p (d (pending_name p.id))),
        (draw_pending_detail p, opens p h.normal h.on_pending ne here, refl, refl),
      )
