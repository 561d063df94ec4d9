-- ===== src/Tui/Loop.antt =====
-- `run_loop` of vectorguard/src/tui/mod.rs. Which of the two futures of `select!` is ready first, and
-- whether drawing succeeds, is what each turn brings.
pub mod Reached
pub mod Leaving
pub mod Escaping
use vector_guard.Prelude.{Bool, List, Option, [], false, if◌then◌else◌, none, some, true, ℕ, ◌∷◌}
use vector_guard.Event.{NormalizedEvent}
use vector_guard.Tui.{View, push_event}
use vector_guard.Tui.App.{App, AppState, Env, Session, maybe_refresh_pending}
use vector_guard.Tui.Keys.{Input, handle}

-- How the loop ends: by a key, by an error, by a panic in `push_event`.
pub data Exit : Type 0 where
  left failed panicked : Exit

abbrev pub has_quit : AppState → Bool
has_quit AppState.quit = true
has_quit AppState.running = false

-- 500 milliseconds.
abbrev pub pending_refresh : ℕ
pending_refresh = 500_000_000

pub data Turn (J : Type 0) : Type 0 where
  draw_failed : Turn J
  keyboard : Input → Turn J
  arrives : NormalizedEvent J → Turn J

-- `if app.state == AppState::Quit { break }`
abbrev pub check_state : Session → Session × Option Exit
check_state s = (s, if has_quit s.app.state then some Exit.left else none)

abbrev pub after_key : Session × Option Bool → Session × Option Exit
after_key (s, none) = (s, some Exit.failed)
after_key (s, some true) = (s, some Exit.left)
after_key (s, some false) = check_state s

abbrev pub after_event : Session → Option View → Session × Option Exit
after_event s none = (s, some Exit.panicked)
after_event s (some view) = check_state (record s { app = record s.app { view = view } })

abbrev pub proceed :
    (Session → Session × Option Exit) → Session × Option Exit → Session × Option Exit
proceed next (s, none) = next s
proceed next (s, some exit) = (s, some exit)

module _ {J : Type 0} where
  abbrev pub react : Env → Turn J → Session → Session × Option Exit
  react env draw_failed s = (s, some Exit.failed)
  react env (keyboard input) s = after_key (handle env input s)
  react env (arrives ev) s = after_event s (push_event s.app.view ev)

  -- The body of the loop.
  unfoldable pub turn : Env → Turn J → Session → Session × Option Exit
  unfolding maybe_refresh_pending handle push_event
  turn env t s = react env t (maybe_refresh_pending env pending_refresh s)

  -- The loop over the turns at hand: `none` if it has not ended with them.
  unfoldable pub run_loop : List (Env × Turn J) → Session → Session × Option Exit
  unfolding turn
  run_loop [] s = (s, none)
  run_loop ((env, t) ∷ ts) s = proceed (run_loop ts) (turn env t s)
