-- ===== src/Tui/History.antt =====
-- What the user interface of vectorguard/src/tui/app.rs shows after a row of events.
use vector_guard.Prelude.{
  All, Bool-cases, List, Option, Text, [], ap, append-nil, append_assoc, arith, drop, filter, inl,
  inr, length, length-append, ltb, map, map_opt, none, refl, some, suc, sym, true, unwrap_or, ℕ,
  ◌%◌, ◌++◌, ◌+◌, ◌-◌, ◌<◌, ◌^◌, ◌∙◌, ◌∷◌, ◌≡◌, ◌≤◌,
}
use vector_guard.Event.{NormalizedEvent, is_incident}
use vector_guard.Tui.{
  EventRow, IncidentRow, View, bump, cap_500, full_kind_of, incident_of, push_event, push_events,
  row_of, shorten, show_event,
}

module _ {ℓ} {A : Type ℓ} where
  -- The last five hundred.
  abbrev pub last_500 : List A → List A
  last_500 xs = drop (length xs - 500) xs

  unfoldable pub push_all : List A → List A → List A
  push_all xs [] = xs
  push_all xs (y ∷ ys) = push_all (cap_500 (xs ++ y ∷ [])) ys

  pub push_all-eq : (xs ys : List A) → length xs ≤ 500 → push_all xs ys ≡ last_500 (xs ++ ys)
  unfolding push_all
  push_all-eq xs [] h =
      let few : length xs - 500 ≡ 0 = omega arith in
      ap (λ k. drop k xs) (sym few) ∙ ap (λ l. drop (length l - 500) l) (sym (append-nil xs))
  push_all-eq xs (y ∷ ys) h = elim (Bool-cases (ltb 500 (length (xs ++ y ∷ [])))) [
    | inl e ↦ rw e (full xs h e (λ zs. push_all-eq zs ys))
    | inr e ↦ rw e (
        push_all-eq (xs ++ y ∷ []) ys (ground arith)
        ∙ ap (λ l. drop (length l - 500) l) (append_assoc xs (y ∷ []) ys))
  ]
    where
      full :
          (zs : List A)
          → length zs ≤ 500
          → ltb 500 (length (zs ++ y ∷ [])) ≡ true
          → ((us : List A) → length us ≤ 500 → push_all us ys ≡ last_500 (us ++ ys))
          → push_all (drop 1 (zs ++ y ∷ [])) ys ≡ last_500 (zs ++ y ∷ ys)
      full [] h e ih = absurd (ground arith)
      full (z ∷ zs) h e ih =
          let n : length (zs ++ y ∷ []) ≡ length zs + 1 = length-append zs (y ∷ []) in
          let m : length (zs ++ y ∷ ys) ≡ length zs + suc (length ys) = length-append zs (y ∷ ys) in
          ih (zs ++ y ∷ []) (ground arith)
          ∙ ap last_500 (append_assoc zs (y ∷ []) ys)
          ∙ dropped (length (zs ++ y ∷ ys) - 500) (length (z ∷ zs ++ y ∷ ys) - 500) z (zs ++ y ∷ ys)
              (ground arith)
        where
          dropped : (a b : ℕ) (x : A) (l : List A) → b ≡ suc a → drop a l ≡ drop b (x ∷ l)
          dropped a b x l h = ap (λ k. drop k (x ∷ l)) (sym h)

bump_small : (n : ℕ) → bump n < 2 ^ 64
bump_small n = omega arith

module _ {J : Type 0} where
  -- The kind of the event can be shown without a panic.
  abbrev pub Shows : NormalizedEvent J → Type 0
  Shows ev = (kind : Text) × (shorten (full_kind_of ev.event_type) ≡ some kind)

  abbrev pub kind_for : NormalizedEvent J → Text
  kind_for ev = unwrap_or (shorten (full_kind_of ev.event_type)) []

  abbrev pub rows : List (NormalizedEvent J) → List EventRow
  rows evs = map (λ ev. row_of ev (kind_for ev)) evs

  abbrev pub incident_rows : List (NormalizedEvent J) → List IncidentRow
  incident_rows evs =
      map (λ ev. incident_of ev (kind_for ev)) (filter (λ ev. is_incident ev.action) evs)

  -- The view after a row of events.
  pub record Shown (v : View) (evs : List (NormalizedEvent J)) : Type 0 where
    pub after : View
    pub returns : push_events v evs ≡ some after
    pub events : after.events ≡ push_all v.events (rows evs)
    pub incidents : after.incidents ≡ push_all v.incidents (incident_rows evs)
    pub total : after.stats.total_events ≡ (v.stats.total_events + length evs) % 2 ^ 64

  push_event-show :
      (v : View) (ev : NormalizedEvent J)
      → Shows ev
      → push_event v ev ≡ some (show_event v ev (kind_for ev))
  unfolding push_event
  push_event-show v ev (kind, e) =
      ap (map_opt (show_event v ev)) e
      ∙ ap (λ k. some (show_event v ev k)) (sym (ap (λ o. unwrap_or o []) e))

  push_events-cons :
      (v w : View) (ev : NormalizedEvent J) (evs : List (NormalizedEvent J))
      → push_event v ev ≡ some w
      → push_events v (ev ∷ evs) ≡ push_events w evs
  unfolding push_events
  push_events-cons v w ev evs e =
      ap (λ o. elim o as (λ _. Option View) [ none ↦ none | some x ↦ push_events x evs ]) e

  push_all-incidents :
      (v : View) (ev : NormalizedEvent J) (evs : List (NormalizedEvent J))
      → push_all (show_event v ev (kind_for ev)).incidents (incident_rows evs)
        ≡ push_all v.incidents (incident_rows (ev ∷ evs))
  unfolding push_all
  push_all-incidents v ev evs = elim (Bool-cases (is_incident ev.action)) [
    | inl e ↦ rw e refl
    | inr e ↦ rw e refl
  ]

  push_events-Shown :
      (v : View) (evs : List (NormalizedEvent J))
      → v.stats.total_events < 2 ^ 64
      → All Shows evs
      → Shown v evs
  unfolding push_events push_all
  push_events-Shown v [] small h = record {
    after = v;
    returns = refl;
    events = refl;
    incidents = refl;
    total = omega arith;
  }
  push_events-Shown v (ev ∷ evs) small h =
      let w = show_event v ev (kind_for ev) in
      let s = push_events-Shown w evs (bump_small v.stats.total_events) h.1 in
      record {
        after = s.after;
        returns = push_events-cons v w ev evs (push_event-show v ev h.0) ∙ s.returns;
        events = s.events;
        incidents = s.incidents ∙ push_all-incidents v ev evs;
        total = s.total ∙ omega arith;
      }

  -- From a view with at most five hundred rows and incidents, events whose kinds can all be shown
  -- are shown without a panic. Afterwards the interface has the last five hundred of all rows and the
  -- last five hundred of all incidents (the Blocked, Alerted and Killed events), in order of arrival,
  -- and has counted every event, modulo 2 ^ 64.
  pub push_events_lem :
      (v : View) (evs : List (NormalizedEvent J))
      → length v.events ≤ 500
      → length v.incidents ≤ 500
      → v.stats.total_events < 2 ^ 64
      → All Shows evs
      → (w : View) × (push_events v evs ≡ some w)
        × (w.events ≡ last_500 (v.events ++ rows evs))
        × (w.incidents ≡ last_500 (v.incidents ++ incident_rows evs))
        × (w.stats.total_events ≡ (v.stats.total_events + length evs) % 2 ^ 64)
  push_events_lem v evs few_rows few_incidents small shows =
      let s = push_events-Shown v evs small shows in
      (
        s.after,
        s.returns,
        s.events ∙ push_all-eq v.events (rows evs) few_rows,
        s.incidents ∙ push_all-eq v.incidents (incident_rows evs) few_incidents,
        s.total,
      )
