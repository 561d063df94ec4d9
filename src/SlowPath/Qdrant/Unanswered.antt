-- ===== src/SlowPath/Qdrant/Unanswered.antt =====
-- `qdrant_search` of vectorguard/src/slow_path/vectordb.rs inside `SlowPath::analyze` of
-- vectorguard/src/slow_path/mod.rs: what an answer without a list of results does to an event.
use vector_guard.Prelude.{
  Option, Text, [], ap, codes, inl, inr, none, refl, some, sym, true, ℕ, ◌↔◌, ◌∙◌, ◌≡◌, ◌≢◌, ◌⊎◌,
}
use vector_guard.Float.{Float}
use vector_guard.Config.{VectorDbBackend}
use vector_guard.Event.{Action, IpAddr, NormalizedEvent}
use vector_guard.SlowPath.{SlowPath, Services, analyze, search_db}
use vector_guard.SlowPath.Context.{Vector}
use vector_guard.SlowPath.Embedder.{embed}
use vector_guard.SlowPath.Embedder.Providers.{Value}
use vector_guard.SlowPath.Escalation.{searched, →escalated, analyze_iff}
use vector_guard.SlowPath.Outcome.{analyze_outcome}
use vector_guard.SlowPath.Qdrant.{
  Answer, Call, Target, qdrant_search, scores_from, scores_in, scores_of, search_call,
}

alerted_or_not : (a : Action) → (a ≡ Action.alerted) ⊎ (a ≢ Action.alerted)
alerted_or_not Action.alerted = inl refl
alerted_or_not Action.allowed = inr (λ e. cc)
alerted_or_not Action.blocked = inr (λ e. cc)
alerted_or_not Action.logged = inr (λ e. cc)
alerted_or_not Action.killed = inr (λ e. cc)

module _ (f : Float) {V : Type 0} (value : Value V f.F) (send : Call f.F → Option (Answer V))
    (t : Target) where
  -- The services of the slow path, with Qdrant behind `send`.
  abbrev pub with_qdrant : (IpAddr → Text) → (Text → Option (Vector f)) → Services f
  with_qdrant show_ip provider = record {
    show_ip = show_ip;
    provider = provider;
    qdrant_search = qdrant_search value send t;
  }

  -- An answer of any status that is JSON without a list under "result": Qdrant's errors are such.
  pub record NoResult (a : Answer V) : Type 0 where
    pub body : V
    pub decoded : a.json ≡ some body
    pub no_list : value.as_array (value.at body (codes "result")) ≡ none

  scores_from-NoResult :
      (o : Option (Answer V)) (a : Answer V)
      → o ≡ some a
      → NoResult a
      → scores_from value o ≡ some []
  scores_from-NoResult o a e r =
      ap (scores_from value) e
      ∙ ap (scores_of value) r.decoded
      ∙ ap (λ x. some (scores_in value x)) r.no_list

  search-NoResult :
      (v : Vector f) (n : ℕ) (c : f.F) (a : Answer V)
      → send (search_call t v n c) ≡ some a
      → NoResult a
      → qdrant_search value send t v n c ≡ some []
  unfolding qdrant_search
  search-NoResult v n c a e r = scores_from-NoResult _ a e r

  module _ {J : Type 0} (show_ip : IpAddr → Text) (provider : Text → Option (Vector f))
      (sp : SlowPath f) (event : NormalizedEvent J) where
    abbrev services : Services f
    services = with_qdrant show_ip provider

    abbrev after : NormalizedEvent J
    after = (analyze f services sp event).1

    unknown_to_qdrant :
        (v : Vector f) (a : Answer V)
        → sp.backend ≡ VectorDbBackend.qdrant
        → send (search_call t v 5 sp.threshold) ≡ some a
        → NoResult a
        → search_db f services sp.backend v 5 sp.threshold ≡ some []
    unknown_to_qdrant v a back answer r =
        ap (λ b. search_db f services b v 5 sp.threshold) back
        ∙ search-NoResult v 5 sp.threshold a answer r

    still_alerted : event.action ≡ Action.alerted → after.action ≡ Action.alerted
    still_alerted e = elim (analyze_outcome f services sp event) [
      | inl same ↦ ap (λ ev. ev.action) same ∙ e
      | inr (changed, _, _) ↦ ap (λ ev. ev.action) changed
    ]

    was_allowed :
        after.action ≡ Action.alerted
        → event.action ≢ Action.alerted
        → (event.action ≡ Action.allowed)
          × ((v : Vector f) × (embed show_ip provider sp.dim event ≡ some v))
    was_allowed e n =
        let changed = (analyze_iff f services sp event).0 (λ q. n (sym q ∙ e)) in
        (changed.was_allowed, (changed.current, changed.embedded))

    -- Where the slow path is active on Qdrant and Qdrant refuses every search, with any status and a
    -- body that has no list of results, an event leaves the analysis as Alerted exactly when it came as
    -- Alerted, or came as Allowed and could be embedded.
    pub analyze-refused :
        sp.enabled ≡ true
        → sp.available ≡ true
        → sp.backend ≡ VectorDbBackend.qdrant
        → ((v : Vector f)
            → (a : Answer V) × (send (search_call t v 5 sp.threshold) ≡ some a) × NoResult a)
        → ((analyze f (with_qdrant show_ip provider) sp event).1.action ≡ Action.alerted) ↔ (
            (event.action ≡ Action.alerted)
            ⊎ ((event.action ≡ Action.allowed)
                × ((v : Vector f) × (embed show_ip provider sp.dim event ≡ some v))))
    analyze-refused en av back refused = (
      λ e. elim (alerted_or_not event.action) [ inl a ↦ inl a | inr n ↦ inr (was_allowed e n) ],
      λ c. elim c [
        | inl a ↦ still_alerted a
        | inr (was, (v, emb)) ↦
            let (a, answer, r) = refused (searched f services sp event v) in
            ap (λ ev. ev.action)
              (→escalated f services sp event record {
                enabled = en;
                available = av;
                was_allowed = was;
                current = v;
                embedded = emb;
                unknown = unknown_to_qdrant (searched f services sp event v) a back answer r;
              })
      ],
    )
