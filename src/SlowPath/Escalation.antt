-- ===== src/SlowPath/Escalation.antt =====
-- When `SlowPath::analyze` of vectorguard/src/slow_path/mod.rs escalates an event.
use vector_guard.Prelude.{
  Bool, Bool-cases, List, Option, [], ap, arith, false, if◌then◌else◌, inl, inr, length, none, not,
  refl, some, suc, true, ◌==◌, ◌||◌, ◌↔◌, ◌∙◌, ◌∷◌, ◌≡◌, ◌≢◌,
}
use vector_guard.Float.{Float}
use vector_guard.Event.{Action, NormalizedEvent, action_eq}
use vector_guard.SlowPath.Context.{Vector, context_vector}
use vector_guard.SlowPath.Context.Vectors.{length-div_all}
use vector_guard.SlowPath.Embedder.{embed}
use vector_guard.SlowPath.{
  SlowPath, Services, blend, mix, search_db, search_vector, is_anomaly, escalate, raised, analyze,
  analyze_vector,
}

module _ (f : Float) where
  length-mix : (a b : Vector f) → length a ≡ length b → length (mix f a b) ≡ length a
  length-mix [] b h = refl
  length-mix (x ∷ a) [] h = absurd (omega arith)
  length-mix (x ∷ a) (y ∷ b) h = ap suc (length-mix a b (omega arith))

  -- Blending keeps the dimension of the current vector, also where the dimensions differ.
  pub length-blend : (a b : Vector f) → length (blend f a b) ≡ length a
  unfolding blend
  length-blend a b = elim (Bool-cases (length a == length b)) [
    | inl e ↦ rw e (length-div_all f _ (mix f a b) ∙ length-mix a b (ground arith))
    | inr e ↦ rw e refl
  ]

  module _ {J : Type 0} (s : Services f) (sp : SlowPath f) (event : NormalizedEvent J) where
    -- The vector that is searched for: the current one, blended with the context of the process.
    abbrev pub searched : Vector f → Vector f
    searched current = search_vector f current (context_vector f sp.context event.process.pid)

    pub record Escalates : Type 0 where
      pub enabled : sp.enabled ≡ true
      pub available : sp.available ≡ true
      pub was_allowed : event.action ≡ Action.allowed
      pub current : Vector f
      pub embedded : embed s.show_ip s.provider sp.dim event ≡ some current
      pub unknown : search_db f s sp.backend (searched current) 5 sp.threshold ≡ some []

    abbrev after : NormalizedEvent J
    after = (analyze f s sp event).1

    is_anomaly→empty : (o : Option (List f.F)) → is_anomaly f o ≡ true → o ≡ some []
    is_anomaly→empty none h = cc
    is_anomaly→empty (some []) h = refl
    is_anomaly→empty (some (x ∷ xs)) h = cc

    allowed_of_eq : (a : Action) → action_eq a Action.allowed ≡ true → a ≡ Action.allowed
    allowed_of_eq a h = ground arith

    escalated→ :
        (b : Bool)
        → (escalate f b event).action ≢ event.action
        → (b ≡ true) × (event.action ≡ Action.allowed)
    escalated→ false n = absurd (n refl)
    escalated→ true n = elim (Bool-cases (action_eq event.action Action.allowed)) [
      | inl e ↦ (refl, allowed_of_eq event.action e)
      | inr e ↦ absurd (n (rw e refl))
    ]

    vector→ :
        (o : Option (Vector f))
        → (analyze_vector f s sp event o).1.action ≢ event.action
        → (event.action ≡ Action.allowed)
          × ((v : Vector f) × (o ≡ some v)
              × (search_db f s sp.backend (searched v) 5 sp.threshold ≡ some []))
    vector→ none n = absurd (n refl)
    vector→ (some v) n =
        let (anomaly, was) = escalated→ _ n in (was, (v, refl, is_anomaly→empty _ anomaly))

    escalates→ : after.action ≢ event.action → Escalates
    unfolding analyze
    escalates→ n =
        go sp.enabled sp.available refl refl (action_eq event.action Action.blocked) refl n
      where
        go :
            (a b : Bool)
            → sp.enabled ≡ a
            → sp.available ≡ b
            → (c : Bool) → action_eq event.action Action.blocked ≡ c
            → (if not a || not b
                then (sp, event, none)
                else if c
                then (sp, event, none)
                else analyze_vector f s sp event (embed s.show_ip s.provider sp.dim event)).1.action
              ≢ event.action
            → Escalates
        go false b ea eb c ec n = absurd (n refl)
        go true false ea eb c ec n = absurd (n refl)
        go true true ea eb true ec n = absurd (n refl)
        go true true ea eb false ec n =
            let (was, (v, e, u)) = vector→ _ n in
            record {
              enabled = ea;
              available = eb;
              was_allowed = was;
              current = v;
              embedded = e;
              unknown = u;
            }

    gate_open :
        {X : Type 0} (a b c : Bool) (idle run : X)
        → a ≡ true
        → b ≡ true
        → c ≡ false
        → (if not a || not b then idle else if c then idle else run) ≡ run
    gate_open a b c idle run ha hb hc = ground arith

    -- The analysis of an active slow path, of an event that is not Blocked.
    analyze-active :
        sp.enabled ≡ true
        → sp.available ≡ true
        → action_eq event.action Action.blocked ≡ false
        → analyze f s sp event
          ≡ analyze_vector f s sp event (embed s.show_ip s.provider sp.dim event)
    unfolding analyze
    analyze-active en av nb = gate_open sp.enabled sp.available _ _ _ en av nb

    escalate-raised :
        (o : Option (List f.F))
        → o ≡ some []
        → event.action ≡ Action.allowed
        → escalate f (is_anomaly f o) event ≡ raised f event
    escalate-raised none h a = cc
    escalate-raised (some []) h a =
        let e : action_eq event.action Action.allowed ≡ true = ground arith in rw e refl
    escalate-raised (some (x ∷ xs)) h a = cc

    pub →escalated : Escalates → after ≡ raised f event
    →escalated e =
        let not_blocked : action_eq event.action Action.blocked ≡ false =
          let a = e.was_allowed in ground arith in
        ap (λ r. r.1) (analyze-active e.enabled e.available not_blocked)
        ∙ ap (λ o. (analyze_vector f s sp event o).1) e.embedded
        ∙ escalate-raised _ e.unknown e.was_allowed

    -- The analysis changes the action of an event exactly when the slow path is enabled and
    -- available, the event was Allowed and could be embedded, and the search for its blended vector
    -- succeeded and found no neighbour.
    pub analyze_iff : ((analyze f s sp event).1.action ≢ event.action) ↔ Escalates
    analyze_iff = (escalates→, λ e q. cc (ap (λ ev. ev.action) (→escalated e), e.was_allowed))
