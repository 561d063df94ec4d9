-- ===== src/Pipeline/Worker.antt =====
-- What the slow path worker can report.
use vector_guard.Prelude.{
  All, Bool, Bool-cases, List, Option, Text, [], ap, arith, false, false≢true, if◌then◌else◌, inl,
  inr, length, ltb, refl, sym, true, ℕ, ◌&&◌, ◌++◌, ◌∙◌, ◌∷◌, ◌≡◌, ◌≢◌,
}
use vector_guard.Event.{Action, NormalizedEvent, action_eq}
use vector_guard.Config.{Config}
use vector_guard.Float.{Float}
use vector_guard.Glob.{Glob}
use vector_guard.Rules.{RuleSet}
use vector_guard.Rules.Load.{DirEntry}
use vector_guard.Scope.{allows}
use vector_guard.FastPath
use vector_guard.FastPath.{FastPath}
use vector_guard.FastPath.Decision.{evaluate-ne-allowed}
use vector_guard.SlowPath
use vector_guard.SlowPath.{Services}
use vector_guard.SlowPath.Escalation.{analyze_iff}
use vector_guard.Pipeline
use vector_guard.Pipeline.Startup.{Decisive, Strict, new-Decisive, started}
use vector_guard.Pipeline.{
  State, Surroundings, hand_over, inform, offer, on_event, on_reload, on_slow_reload, work,
}

module _ (f : Float) (g : Glob) (J : Type 0) where
  -- The states that the two tasks reach from the start of the daemon, in any order of events, reloads
  -- and steps of the worker, where every configuration that is loaded is strict.
  pub data Reached : State f g J → Type 0 where
    start :
        (parse : Text → Option RuleSet) (read_dir : Text → Option (List DirEntry))
        (var : Text → Option Text) (cfg : Config f.F) (reply : Bool)
        → Strict parse read_dir cfg.fast_path
        → Reached (started f g J parse read_dir var cfg reply)
    event_step :
        {st : State f g J} (w : Surroundings f g J) (event : NormalizedEvent J)
        → Reached st
        → Reached (on_event f g J w st event).0
    reload_step :
        {st : State f g J} (parse : Text → Option RuleSet)
        (read_dir : Text → Option (List DirEntry)) (cfg : Config f.F)
        → Strict parse read_dir cfg.fast_path
        → Reached st
        → Reached (on_reload f g J parse read_dir cfg st)
    slow_step :
        {st : State f g J} (s : Services f) (w : Surroundings f g J)
        → Reached st
        → Reached (work f g J s w st)
    slow_reload_step :
        {st : State f g J} (cfg : Config f.F) (dim : ℕ) (reply : Bool)
        → Reached st
        → Reached (on_slow_reload f g J cfg dim reply st)

  abbrev NotAllowed : NormalizedEvent J → Type 0
  NotAllowed event = event.action ≢ Action.allowed

  -- Nothing waits for the worker as Allowed.
  record Settled (st : State f g J) : Type 0 where
    decisive : Decisive st.fast_path
    queue : All NotAllowed st.slow_queue

  All-snoc :
      (q : List (NormalizedEvent J)) (e : NormalizedEvent J)
      → All NotAllowed q
      → NotAllowed e
      → All NotAllowed (q ++ e ∷ [])
  All-snoc [] e a n = (n, tt)
  All-snoc (x ∷ q) e a n = (a.0, All-snoc q e a.1 n)

  offer-Settled :
      (st : State f g J) (event : NormalizedEvent J)
      → Settled st
      → NotAllowed event
      → Settled (offer f g J st event)
  offer-Settled st event s n = go (st.slow_open && ltb (length st.slow_queue) 1024)
    where
      go :
          (b : Bool)
          → Settled (
              if b
              then record st { slow_queue = st.slow_queue ++ event ∷ [] }
              else record st { slow_drops = Pipeline.saturating_inc st.slow_drops })
      go true = record { decisive = s.decisive; queue = All-snoc st.slow_queue event s.queue n }
      go false = record { decisive = s.decisive; queue = s.queue }

  hand_over-Settled :
      (st : State f g J) (event : NormalizedEvent J)
      → Settled st
      → Settled (hand_over f g J st event).0
  hand_over-Settled st event s = go st.proc_open
    where
      live : State f g J × Bool
      live = (record st { sent = st.sent ++ event ∷ [] }, true)

      dead : State f g J × Bool
      dead = (st, false)

      go : (b : Bool) → Settled (if b then live else dead).0
      go true = record { decisive = s.decisive; queue = s.queue }
      go false = s

  on_event-Settled :
      (w : Surroundings f g J) (st : State f g J) (event : NormalizedEvent J)
      → Settled st
      → Settled (on_event f g J w st event).0
  unfolding on_event
  on_event-Settled w st event s = elim (Bool-cases (allows g st.scope_filter event)) [
    | inl e ↦
        let decided = FastPath.evaluate g st.fast_path event in
        let st1 = inform f g J w st decided in
        let d = s.decisive in
        rw e (
          hand_over-Settled (offer f g J st1 decided) decided (
            offer-Settled st1 decided (record { decisive = d; queue = s.queue })
              (evaluate-ne-allowed g st.fast_path event d.enabled d.default d.no_allow)))
    | inr e ↦ rw e s
  ]

  work-Settled :
      (s : Services f) (w : Surroundings f g J) (st : State f g J)
      → Settled st
      → Settled (work f g J s w st)
  unfolding Pipeline.on_slow
  work-Settled s w st h = go st.slow_queue h.queue
    where
      go :
          (q : List (NormalizedEvent J))
          → All NotAllowed q
          → Settled (Pipeline.on_slow f g J s w st q)
      go [] a = h
      go (event ∷ rest) a = record { decisive = h.decisive; queue = a.1 }

  on_reload-Settled :
      (parse : Text → Option RuleSet) (read_dir : Text → Option (List DirEntry)) (cfg : Config f.F)
      (st : State f g J)
      → Decisive (FastPath.new parse read_dir cfg.fast_path)
      → Settled st
      → Settled (on_reload f g J parse read_dir cfg st)
  unfolding on_reload
  on_reload-Settled parse read_dir cfg st d h = record { decisive = d; queue = h.queue }

  started-Settled :
      (parse : Text → Option RuleSet) (read_dir : Text → Option (List DirEntry))
      (var : Text → Option Text) (cfg : Config f.F) (reply : Bool)
      → Decisive (FastPath.new parse read_dir cfg.fast_path)
      → Settled (started f g J parse read_dir var cfg reply)
  unfolding started
  started-Settled parse read_dir var cfg reply d = record { decisive = d; queue = tt }

  Reached-Settled : (st : State f g J) → Reached st → Settled st
  Reached-Settled _ (start parse read_dir var cfg reply h) =
      started-Settled parse read_dir var cfg reply (new-Decisive parse read_dir cfg.fast_path h)
  Reached-Settled _ (event_step w event r) = on_event-Settled w _ event (Reached-Settled _ r)
  Reached-Settled _ (reload_step parse read_dir cfg d r) =
      on_reload-Settled parse read_dir cfg _ (new-Decisive parse read_dir cfg.fast_path d)
        (Reached-Settled _ r)
  Reached-Settled _ (slow_step s w r) = work-Settled s w _ (Reached-Settled _ r)
  Reached-Settled _ (slow_reload_step cfg dim reply r) =
      let h = Reached-Settled _ r in record { decisive = h.decisive; queue = h.queue }

  action_eq_refl : (a : Action) → action_eq a a ≡ true
  action_eq_refl a = ground arith

  same_action :
      (s : Services f) (sp : SlowPath.SlowPath f) (event : NormalizedEvent J)
      → NotAllowed event
      → action_eq (SlowPath.analyze f s sp event).1.action event.action ≡ true
  same_action s sp event n =
      elim (Bool-cases (action_eq (SlowPath.analyze f s sp event).1.action event.action)) [
        | inl e ↦ e
        | inr e ↦
            let different : (SlowPath.analyze f s sp event).1.action ≢ event.action = λ q.
              false≢true
                (sym e ∙ ap (λ a. action_eq a event.action) q ∙ action_eq_refl event.action) in
            absurd (n ((analyze_iff f s sp event).0 different).was_allowed)
      ]

  -- Where every configuration that is loaded, at the start and by reloads, enables the fast path and
  -- loads no rule with the action `allow`, the anomaly detection of the slow path never reports
  -- anything: in any state that the daemon reaches from its start, by any interleaving of events,
  -- reloads and steps of the worker, and whatever the embedding provider and the vector database
  -- answer, a step of the worker leaves the incident log as it was.
  pub worker_silent :
      (s : Services f) (w : Surroundings f g J) (st : State f g J)
      → Reached st
      → (work f g J s w st).log ≡ st.log
  unfolding Pipeline.on_slow
  worker_silent s w st r = go st.slow_queue (Reached-Settled st r).queue
    where
      go :
          (q : List (NormalizedEvent J))
          → All NotAllowed q
          → (Pipeline.on_slow f g J s w st q).log ≡ st.log
      go [] a = refl
      go (event ∷ rest) a = rw (same_action s st.slow_path event a.0) refl
