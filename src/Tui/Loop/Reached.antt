-- ===== src/Tui/Loop/Reached.antt =====
-- The user interface is sound after every turn of its loop.
use vector_guard.Prelude.{
  Bool, List, Option, Text, [], arith, false, if◌then◌else◌, insert, length, length-append,
  length-drop, lookup, ltb, map, map_opt, none, not, some, true, unwrap_or, ℕ, ◌++◌, ◌-◌, ◌==◌, ◌∷◌,
  ◌≤◌,
}
use vector_guard.Event.{NormalizedEvent}
use vector_guard.Approval.{Disk}
use vector_guard.Approval.Listing.{PendingItem, list_pending}
use vector_guard.Tui.{
  push_event, show_event, row_of, incident_of, cap_500, shorten, full_kind_of, seen, new_node,
}
use vector_guard.Tui.App.{
  App, Env, PendingRow, Session, maybe_refresh_pending, refreshed, show_pending, pending_row,
}
use vector_guard.Tui.App.Editor.{with_approval}
use vector_guard.Tui.Keys.{Input, handle, failed, idle, no_key, key}
use vector_guard.Tui.Keys.Sound.{IsSound}
use vector_guard.Tui.Keys.Pressed.{press-IsSound}
use vector_guard.Tui.Loop.{
  Turn, draw_failed, keyboard, arrives, Exit, turn, after_key, after_event, run_loop, proceed,
  pending_refresh,
}

-- The state in which the user interface starts.
pub with_approval-IsSound :
    (now : ℕ) (text : Text) (has_store : Bool) → IsSound (with_approval now text has_store)
unfolding with_approval
with_approval-IsSound now text has_store = ground arith

-- A session that starts.
abbrev pub opened : ℕ → Text → Bool → Disk → Text → Session
opened now text has_store disk file = record {
  app = with_approval now text has_store;
  disk = disk;
  config_file = file;
}

show_pending-IsSound :
    (env : Env) (a : App) (rows : List PendingRow) → IsSound a → IsSound (show_pending env a rows)
show_pending-IsSound env a rows h = ground arith

refreshed-IsSound :
    (env : Env) (s : Session) (a : App) (items : Option (List PendingItem))
    → IsSound a
    → IsSound (refreshed env a s.disk items)
refreshed-IsSound env s a none h = h
refreshed-IsSound env s a (some items) h =
    show_pending-IsSound env a (map (pending_row env s.disk) items) h

pub refresh-IsSound :
    (env : Env) (interval : ℕ) (s : Session)
    → IsSound s.app
    → IsSound (maybe_refresh_pending env interval s).app
unfolding maybe_refresh_pending
refresh-IsSound env interval s h =
    go (not s.app.has_store) (ltb (env.now - s.app.pending_last_refresh) interval)
  where
    after : Session
    after = record s {
      app =
          refreshed env (record s.app { pending_last_refresh = env.now }) s.disk
            (list_pending env.parse env.io env.system_now s.disk);
    }

    go : (b c : Bool) → IsSound (if b then s else if c then s else after).app
    go true c = h
    go false true = h
    go false false =
        refreshed-IsSound env s (record s.app { pending_last_refresh = env.now })
          (list_pending env.parse env.io env.system_now s.disk) (ground arith)

length-insert-le :
    {V : Type 0} (k : ℕ) (v : V) (m : List (ℕ × V)) → length m ≤ length (insert ◌==◌ k v m)
unfolding insert
length-insert-le k v [] = omega arith
length-insert-le k v ((j, w) ∷ m) = ground (arith, length-insert-le k v m)

length-cap_500-le :
    {A : Type 0} (xs : List A) (a : A) → length xs ≤ 500 → length (cap_500 (xs ++ a ∷ [])) ≤ 500
length-cap_500-le xs a h = ground (arith, length-append xs (a ∷ []), length-drop 1 (xs ++ a ∷ []))

after_key-IsSound : (r : Session × Option Bool) → IsSound r.0.app → IsSound (after_key r).0.app
after_key-IsSound (s, none) h = h
after_key-IsSound (s, some true) h = h
after_key-IsSound (s, some false) h = h

pub handle-IsSound :
    (env : Env) (i : Input) (s : Session) → IsSound s.app → IsSound (handle env i s).0.app
unfolding handle
handle-IsSound env failed s h = h
handle-IsSound env idle s h = h
handle-IsSound env no_key s h = h
handle-IsSound env (key false k) s h = h
handle-IsSound env (key true k) s h = press-IsSound env k s h

module _ {J : Type 0} where
  event-IsSound :
      (a : App) (ev : NormalizedEvent J) (kind : Text)
      → IsSound a
      → IsSound (record a { view = show_event a.view ev kind })
  event-IsSound a ev kind h = ground (
    arith,
    length-insert-le ev.process.pid
        (seen ev (unwrap_or (lookup ◌==◌ ev.process.pid a.view.process_map) (new_node ev)))
        a.view.process_map,
    length-cap_500-le a.view.events (row_of ev kind) h.events_kept,
    length-cap_500-le a.view.incidents (incident_of ev kind) h.incidents_kept,
  )

  after_event-IsSound :
      (s : Session) (ev : NormalizedEvent J)
      → IsSound s.app
      → IsSound (after_event s (push_event s.app.view ev)).0.app
  unfolding push_event
  after_event-IsSound s ev h = go (shorten (full_kind_of ev.event_type))
    where
      go : (o : Option Text) → IsSound (after_event s (map_opt (show_event s.app.view ev) o)).0.app
      go none = h
      go (some kind) = event-IsSound s.app ev kind h

  turn-IsSound :
      (env : Env) (t : Turn J) (s : Session) → IsSound s.app → IsSound (turn env t s).0.app
  unfolding turn
  turn-IsSound env draw_failed s h = refresh-IsSound env pending_refresh s h
  turn-IsSound env (keyboard i) s h =
      let u = maybe_refresh_pending env pending_refresh s in
      after_key-IsSound (handle env i u)
        (handle-IsSound env i u (refresh-IsSound env pending_refresh s h))
  turn-IsSound env (arrives ev) s h =
      after_event-IsSound (maybe_refresh_pending env pending_refresh s) ev
        (refresh-IsSound env pending_refresh s h)

  pub run_loop-IsSound :
      (ts : List (Env × Turn J)) (s : Session) → IsSound s.app → IsSound (run_loop ts s).0.app
  unfolding run_loop
  run_loop-IsSound [] s h = h
  run_loop-IsSound ((env, t) ∷ ts) s h =
      go (turn env t s) (turn-IsSound env t s h) (run_loop-IsSound ts)
    where
      go :
          (r : Session × Option Exit)
          → IsSound r.0.app
          → ((u : Session) → IsSound u.app → IsSound (run_loop ts u).0.app)
          → IsSound (proceed (run_loop ts) r).0.app
      go (u, none) i next = next u i
      go (u, some exit) i next = i

  -- Whatever keys, events, failures and readings of the clock come, in any order, the user interface
  -- keeps its cursors in their lists (those of the events and incidents below 500), keeps at most 500
  -- events and incidents, and never has two of popup, editor and filter input open at once.
  pub run_loop-opened-IsSound :
      (now : ℕ) (text : Text) (has_store : Bool) (disk : Disk) (file : Text)
      (ts : List (Env × Turn J))
      → IsSound (run_loop ts (opened now text has_store disk file)).0.app
  run_loop-opened-IsSound now text has_store disk file ts =
      run_loop-IsSound ts (opened now text has_store disk file)
        (with_approval-IsSound now text has_store)
