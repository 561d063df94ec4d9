-- ===== src/Pipeline.antt =====
-- vectorguard/src/main.rs: `run_pipeline` and `run_slow_worker`, one function per arm of their
-- `select!` loops. The two tasks share the incident log and the queue between them; an await that
-- waits for room is a step that has not happened yet.
pub mod Forwarding
pub mod Backlog
pub mod Startup
pub mod Worker
use vector_guard.Prelude.{
  Bool, List, Option, Text, [], false, if◌then◌else◌, length, ltb, min, none, not, some, true, ℕ,
  ◌&&◌, ◌++◌, ◌+◌, ◌-◌, ◌^◌, ◌∷◌,
}
use vector_guard.Event.{NormalizedEvent, action_eq}
use vector_guard.Config.{Config}
use vector_guard.Float.{Float}
use vector_guard.Glob.{Glob}
use vector_guard.Rules.{Rule, RuleSet}
use vector_guard.Rules.Load.{DirEntry}
use vector_guard.Scope
use vector_guard.Scope.{ScopeFilter, allows}
use vector_guard.FastPath
use vector_guard.FastPath.{FastPath}
use vector_guard.Incident.{IncidentRecord, Channel, record_event}
use vector_guard.Advisor
use vector_guard.Advisor.{Advisor, Outside, update_config}
use vector_guard.SlowPath
use vector_guard.SlowPath.{SlowPath, Services}
use vector_guard.Enforcer.{MapApi, Enforcer, load_rules}

-- `mpsc::channel(1024)` between the pipeline and the worker.
abbrev pub slow_capacity : ℕ
slow_capacity = 1024

-- `slow_drops.saturating_add(1)`
abbrev pub saturating_inc : ℕ → ℕ
saturating_inc n = min (n + 1) (2 ^ 64 - 1)

module _ (f : Float) (g : Glob) (J : Type 0) where
  pub record State : Type 0 where
    pub scope_filter : ScopeFilter g
    pub fast_path : FastPath
    pub ai_advisor : Advisor J
    -- the incident log's channel, which both tasks hold
    pub log : Channel
    -- the events that wait for the slow path worker, oldest first, and whether it still listens
    pub slow_queue : List (NormalizedEvent J)
    pub slow_open : Bool
    pub slow_drops : ℕ
    -- the events sent to the user interface, oldest first, and whether it still listens
    pub sent : List (NormalizedEvent J)
    pub proc_open : Bool
    pub slow_path : SlowPath f

  -- What one step meets outside: the serialiser, the lock of the log, and the advisor's surroundings.
  pub record Surroundings : Type 0 where
    pub to_json : IncidentRecord → Option Text
    pub locked : Bool
    pub advice : Outside J

  abbrev pub offer : State → NormalizedEvent J → State
  offer st event =
      if st.slow_open && ltb (length st.slow_queue) slow_capacity
      then record st { slow_queue = st.slow_queue ++ event ∷ [] }
      else record st { slow_drops = saturating_inc st.slow_drops }

  -- `proc_tx.send(ev)`; the loop breaks where nobody listens.
  abbrev pub hand_over : State → NormalizedEvent J → State × Bool
  hand_over st event =
      if st.proc_open then (record st { sent = st.sent ++ event ∷ [] }, true) else (st, false)

  -- `incident_logger.record(&ev); ai_advisor.analyze(&ev)`
  abbrev pub inform : Surroundings → State → NormalizedEvent J → State
  inform w st event = record st {
    log = (record_event w.to_json w.locked st.log event).0;
    ai_advisor = (Advisor.analyze w.advice st.ai_advisor event).0;
  }

  -- The stages of an event in scope, once the fast path has decided it.
  abbrev pub stages : Surroundings → State → NormalizedEvent J → State × Bool
  stages w st event = hand_over (offer (inform w st event) event) event

  -- An event from the source: the state afterwards, and whether the loop goes on.
  unfoldable pub on_event : Surroundings → State → NormalizedEvent J → State × Bool
  on_event w st event =
      if not (allows g st.scope_filter event)
      then (st, true)
      else stages w st (FastPath.evaluate g st.fast_path event)

  -- A reload of the pipeline: filter and fast path are built anew, the advisor keeps its window.
  unfoldable pub on_reload :
      (Text → Option RuleSet) → (Text → Option (List DirEntry)) → Config f.F → State → State
  on_reload parse read_dir cfg st = record st {
    scope_filter = Scope.new g cfg.scope;
    fast_path = FastPath.new parse read_dir cfg.fast_path;
    ai_advisor = update_config st.ai_advisor cfg.ai_advisor;
  }

  -- The enforcer's part of a reload: it may be absent, or its mutex poisoned.
  abbrev pub reload_enforcer :
      (c : MapApi (List ℕ)) (p u : MapApi ℕ)
      → Bool
      → Option (Enforcer c p u)
      → List Rule
      → Option (Enforcer c p u)
  reload_enforcer c p u lock_ok none rules = none
  reload_enforcer c p u lock_ok (some e) rules =
      if lock_ok then some (load_rules c p u e rules).0 else some e

  -- `if ev.action != prior { incident_logger.record(&ev) }`
  abbrev pub report_change :
      Surroundings → Channel → NormalizedEvent J → NormalizedEvent J → Channel
  report_change w log before after =
      if not (action_eq after.action before.action)
      then (record_event w.to_json w.locked log after).0
      else log

  -- One event of the slow path worker.
  unfoldable pub on_slow : Services f → Surroundings → State → List (NormalizedEvent J) → State
  on_slow s w st [] = st
  on_slow s w st (event ∷ rest) =
      let (sp, after, upsert) = SlowPath.analyze f s st.slow_path event in
      record st { slow_queue = rest; slow_path = sp; log = report_change w st.log event after }

  -- The worker takes the oldest event that waits.
  abbrev pub work : Services f → Surroundings → State → State
  work s w st = on_slow s w st st.slow_queue

  -- The worker's reload builds its slow path anew, with an empty context.
  abbrev pub on_slow_reload : Config f.F → ℕ → Bool → State → State
  on_slow_reload cfg dim reply st = record st { slow_path = SlowPath.new f cfg.slow_path dim reply }

  -- A run over events that arrive one after another, up to a break.
  unfoldable pub run : List (Surroundings × NormalizedEvent J) → State → State
  run [] st = st
  run ((w, event) ∷ inputs) st =
      let (st', more) = on_event w st event in
      let rest = run inputs st' in if more then rest else st'
