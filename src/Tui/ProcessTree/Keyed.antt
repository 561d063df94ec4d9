-- ===== src/Tui/ProcessTree/Keyed.antt =====
-- The map of processes that the events build keeps every node under its own pid.
use vector_guard.Prelude.{
  List, Option-cases, [], arith, inl, inr, insert, lookup, refl, some, subst, unwrap_or, ℕ, ◌==◌,
  ◌∷◌, ◌≡◌,
}
use vector_guard.Event.{NormalizedEvent}
use vector_guard.Tui.{
  ProcessNode, View, new_node, push_event, push_events, show_event, shorten, full_kind_of,
}
use vector_guard.Tui.ProcessTree.{Nodes}
use vector_guard.Tui.ProcessTree.Rows.{IsKeyed}

insert-IsKeyed :
    (k : ℕ) (n : ProcessNode) (m : Nodes) → n.pid ≡ k → IsKeyed m → IsKeyed (insert ◌==◌ k n m)
unfolding insert
insert-IsKeyed k n [] e h = (e, tt)
insert-IsKeyed k n ((j, o) ∷ m) e h = ground (arith, insert-IsKeyed k n m e h.1)

lookup-pid :
    (k : ℕ) (d : ProcessNode) (m : Nodes)
    → d.pid ≡ k
    → IsKeyed m
    → (unwrap_or (lookup ◌==◌ k m) d).pid ≡ k
unfolding lookup
lookup-pid k d [] e h = e
lookup-pid k d ((j, o) ∷ m) e h = ground (arith, lookup-pid k d m e h.1)

module _ {J : Type 0} where
  push_event-IsKeyed :
      (v w : View) (ev : NormalizedEvent J)
      → IsKeyed v.process_map
      → push_event v ev ≡ some w
      → IsKeyed w.process_map
  unfolding push_event
  push_event-IsKeyed v w ev h e = elim (Option-cases (shorten (full_kind_of ev.event_type))) [
    | inl n ↦ absurd (ground arith)
    | inr (kind, f) ↦
        let same : show_event v ev kind ≡ w = ground arith in
        subst (λ u. IsKeyed u.process_map) same
          (insert-IsKeyed ev.process.pid _ v.process_map
            (lookup-pid ev.process.pid (new_node ev) v.process_map refl h) h)
  ]

  -- Whatever events arrive, every node stays under its own pid.
  pub push_events-IsKeyed :
      (v w : View) (evs : List (NormalizedEvent J))
      → IsKeyed v.process_map
      → push_events v evs ≡ some w
      → IsKeyed w.process_map
  unfolding push_events
  push_events-IsKeyed v w [] h e = subst (λ o. IsKeyed (unwrap_or o v).process_map) e h
  push_events-IsKeyed v w (ev ∷ evs) h e = elim (Option-cases (push_event v ev)) [
    | inl n ↦ absurd (ground arith)
    | inr (u, f) ↦
        push_events-IsKeyed u w evs (push_event-IsKeyed v u ev h f) (rw (f, push_events) at e)
  ]
