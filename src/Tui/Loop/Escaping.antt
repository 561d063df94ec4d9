-- ===== src/Tui/Loop/Escaping.antt =====
-- The user interface can be left from every state.
use vector_guard.Prelude.{
  Bool, List, Option, Text, [], ap, false, if◌then◌else◌, inl, inr, ltb, none, not, refl, some,
  true, ℕ, ◌++◌, ◌-◌, ◌∙◌, ◌∷◌, ◌≡◌, ◌⊎◌,
}
use vector_guard.Tui.App.{App, Env, Session, maybe_refresh_pending, refreshed}
use vector_guard.Approval.Listing.{PendingItem, list_pending}
use vector_guard.Approval.{Disk}
use vector_guard.Tui.Keys.{esc, key, press, handle}
use vector_guard.Tui.Keys.Sound.{IsSound}
use vector_guard.Tui.Loop.{
  Turn, keyboard, Exit, turn, after_key, run_loop, proceed, pending_refresh, has_quit,
}
use vector_guard.Tui.Loop.Reached.{opened, refresh-IsSound, run_loop-IsSound, with_approval-IsSound}
use vector_guard.Tui.Loop.Leaving.{IsNormal, press-leaves_iff, esc-IsNormal}

refresh-IsNormal :
    (env : Env) (interval : ℕ) (s : Session)
    → IsNormal s.app
    → IsNormal (maybe_refresh_pending env interval s).app
unfolding maybe_refresh_pending
refresh-IsNormal env interval s n =
    go (not s.app.has_store) (ltb (env.now - s.app.pending_last_refresh) interval)
  where
    fresh : App
    fresh = record s.app { pending_last_refresh = env.now }

    listed : (o : Option (List PendingItem)) → IsNormal (refreshed env fresh s.disk o)
    listed none = n
    listed (some items) = n

    go :
        (b c : Bool)
        → IsNormal
            (if b then s else if c then s else record s {
              app =
                  refreshed env fresh s.disk (list_pending env.parse env.io env.system_now s.disk);
            }).app
    go true c = n
    go false true = n
    go false false = listed (list_pending env.parse env.io env.system_now s.disk)

module _ {J : Type 0} where
  abbrev esc_turn : Env → Env × Turn J
  esc_turn env = (env, keyboard (key true esc))

  leave_normal :
      (env : Env) (ts : List (Env × Turn J)) (s : Session)
      → IsNormal s.app
      → (run_loop (esc_turn env ∷ ts) s).1 ≡ some Exit.left
  unfolding run_loop turn handle
  leave_normal env ts s n = go (press env esc u) ((press-leaves_iff env esc u).1 (m, refl))
    where
      u : Session
      u = maybe_refresh_pending env pending_refresh s

      m : IsNormal u.app
      m = refresh-IsNormal env pending_refresh s n

      go :
          (r : Session × Bool)
          → r.1 ≡ true
          → (proceed (run_loop ts) (after_key (r.0, some r.1))).1 ≡ some Exit.left
      go (t, true) e = refl
      go (t, false) e = cc

  escape :
      (env later : Env) (ts : List (Env × Turn J)) (s : Session)
      → IsSound s.app
      → (run_loop (esc_turn env ∷ esc_turn later ∷ ts) s).1 ≡ some Exit.left
  unfolding run_loop turn handle
  escape env later ts s h = go (press env esc u) (esc-IsNormal env u sound)
    where
      u : Session
      u = maybe_refresh_pending env pending_refresh s

      sound : IsSound u.app
      sound = refresh-IsSound env pending_refresh s h

      next :
          (t : Session) (b : Bool)
          → IsNormal t.app
          → (proceed (run_loop (esc_turn later ∷ ts)) (t, if b then some Exit.left else none)).1
            ≡ some Exit.left
      next t true n = refl
      next t false n = leave_normal later ts t n

      go :
          (r : Session × Bool)
          → (r.1 ≡ true) ⊎ IsNormal r.0.app
          → (proceed (run_loop (esc_turn later ∷ ts)) (after_key (r.0, some r.1))).1
            ≡ some Exit.left
      go (t, true) e = refl
      go (t, false) (inl e) = cc
      go (t, false) (inr n) = next t (has_quit t.app.state) n

  run_loop-append :
      (ts us : List (Env × Turn J)) (s : Session)
      → (run_loop ts s).1 ≡ none
      → run_loop (ts ++ us) s ≡ run_loop us (run_loop ts s).0
  unfolding run_loop
  run_loop-append [] us s h = refl
  run_loop-append ((env, t) ∷ ts) us s h = go (turn env t s) h (run_loop-append ts us)
    where
      go :
          (r : Session × Option Exit)
          → (proceed (run_loop ts) r).1 ≡ none
          → ((v : Session)
              → (run_loop ts v).1 ≡ none
              → run_loop (ts ++ us) v ≡ run_loop us (run_loop ts v).0)
          → proceed (run_loop (ts ++ us)) r ≡ run_loop us (proceed (run_loop ts) r).0
      go (v, none) e ih = ih v e
      go (v, some exit) e ih = cc

  -- Wherever keys and events have led, the loop ends after at most two presses of Esc: the first closes
  -- what is open. Conditions: the loop has not ended before, and drawing succeeds in these turns.
  pub run_loop_escapes :
      (now : ℕ) (text : Text) (has_store : Bool) (disk : Disk) (file : Text)
      (before after : List (Env × Turn J)) (env later : Env)
      → (run_loop before (opened now text has_store disk file)).1 ≡ none
      → (run_loop
          (before ++ (env, keyboard (key true esc)) ∷ (later, keyboard (key true esc)) ∷ after)
          (opened now text has_store disk file)).1
        ≡ some Exit.left
  run_loop_escapes now text has_store disk file before after env later h =
      let s = opened now text has_store disk file in
      ap (λ r. r.1) (run_loop-append before (esc_turn env ∷ esc_turn later ∷ after) s h)
      ∙ escape env later after (run_loop before s).0
          (run_loop-IsSound before s (with_approval-IsSound now text has_store))
