-- ===== src/SlowPath/Outcome.antt =====
-- What `SlowPath::analyze` of vectorguard/src/slow_path/mod.rs leaves of the event and of the context.
use vector_guard.Prelude.{
  Bool, Bool-cases, Option, ap, arith, false, if◌then◌else◌, inl, inr, none, not, refl, some, sym,
  true, ◌||◌, ◌∙◌, ◌≡◌, ◌≤◌, ◌⊎◌,
}
use vector_guard.Float.{Float}
use vector_guard.Event.{Action, NormalizedEvent, action_eq, rank, Severity, severity_lt}
use vector_guard.SlowPath.Context.{Vector}
use vector_guard.SlowPath.Context.Stale.{Reached, step}
use vector_guard.SlowPath.Embedder.{embed}
use vector_guard.SlowPath.{SlowPath, Services, escalate, raised, analyze, analyze_vector}

module _ (f : Float) where
  module _ {J : Type 0} (s : Services f) (sp : SlowPath f) (event : NormalizedEvent J) where
    outcome_of : (b : Bool) → (escalate f b event ≡ event) ⊎ (escalate f b event ≡ raised f event)
    outcome_of false = inl refl
    outcome_of true = elim (Bool-cases (action_eq event.action Action.allowed)) [
      | inl e ↦ inr (rw e refl)
      | inr e ↦ inl (rw e refl)
    ]

    raised-rank :
        (2 ≤ rank (raised f event).severity)
        × (rank event.severity ≤ rank (raised f event).severity)
    raised-rank = go event.severity
      where
        go :
            (v : Severity)
            → let w = (if severity_lt v Severity.medium then Severity.medium else v) in
              (2 ≤ rank w) × (rank v ≤ rank w)
        go Severity.info = (omega arith, omega arith)
        go Severity.low = (omega arith, omega arith)
        go Severity.medium = (omega arith, omega arith)
        go Severity.high = (omega arith, omega arith)
        go Severity.critical = (omega arith, omega arith)

    -- The analysis leaves the event as it was, or makes it Alerted, with a severity of Medium or
    -- more and no less than before; nothing else of the event changes.
    pub analyze_outcome :
        ((analyze f s sp event).1 ≡ event)
        ⊎ (((analyze f s sp event).1 ≡ record event {
          action = Action.alerted;
          severity = (analyze f s sp event).1.severity;
        })
            × (2 ≤ rank (analyze f s sp event).1.severity)
            × (rank event.severity ≤ rank (analyze f s sp event).1.severity))
    analyze_outcome = elim outcome [
      | inl e ↦ inl e
      | inr e ↦
          let v : (analyze f s sp event).1.severity ≡ (raised f event).severity =
            ap (λ ev. ev.severity) e in
          let (a, b) = raised-rank in
          inr (
            e ∙ ap (λ w. record event { action = Action.alerted; severity = w }) (sym v),
            rw v a,
            rw v b,
          )
    ]
      where
        run :
            (o : Option (Vector f))
            → ((analyze_vector f s sp event o).1 ≡ event)
              ⊎ ((analyze_vector f s sp event o).1 ≡ raised f event)
        run none = inl refl
        run (some v) = outcome_of _

        go :
            (a c : Bool) (o : Option (Vector f))
            → let r =
                (if a
                  then (sp, event, none)
                  else if c
                  then (sp, event, none)
                  else analyze_vector f s sp event o) in
              (r.1 ≡ event) ⊎ (r.1 ≡ raised f event)
        go true c o = inl refl
        go false true o = inl refl
        go false false o = run o

        outcome : ((analyze f s sp event).1 ≡ event) ⊎ ((analyze f s sp event).1 ≡ raised f event)
        outcome =
            unfold analyze in
            go (not sp.enabled || not sp.available) (action_eq event.action Action.blocked)
              (embed s.show_ip s.provider sp.dim event)

    -- The context window of the slow path stays one that is reached by pushes and prunings.
    pub analyze-Reached : Reached f sp.context → Reached f (analyze f s sp event).0.context
    unfolding analyze
    analyze-Reached h =
        go (not sp.enabled || not sp.available) (action_eq event.action Action.blocked)
          (embed s.show_ip s.provider sp.dim event)
      where
        go :
            (a c : Bool) (o : Option (Vector f))
            → Reached f
                (if a
                  then (sp, event, none)
                  else if c
                  then (sp, event, none)
                  else analyze_vector f s sp event o).0.context
        go true c o = h
        go false true o = h
        go false false none = h
        go false false (some v) = step event.process.pid event.timestamp v h
