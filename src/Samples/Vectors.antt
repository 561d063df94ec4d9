-- ===== src/Samples/Vectors.antt =====
-- The slow path on concrete events, with whole numbers for floats.
use vector_guard.Prelude.{
  Option, Text, [], arith, codes, drop, filter, if◌then◌else◌, insert, length, lookup, map, none,
  refl, some, subst, text_eq, true, ℕ, ◌++◌, ◌-◌, ◌==◌, ◌↔◌, ◌∷◌, ◌≡◌, ◌≢◌, ◌≤◌, ◌⊎◌,
}
use vector_guard.Float.{whole}
use vector_guard.Event.{Action, EventType, NormalizedEvent, rank}
use vector_guard.Config.{VectorDbBackend}
use vector_guard.SlowPath.{SlowPath, Services, analyze}
use vector_guard.SlowPath.Embedder.{embed}
use vector_guard.SlowPath.Embedder.Providers.{Value}
use vector_guard.SlowPath.Qdrant.{
  search_call, qdrant_search, Answer, Call, Method, Target, qdrant_ensure,
}
use vector_guard.SlowPath.Qdrant.Unanswered.{NoResult, with_qdrant, analyze-refused}
use vector_guard.SlowPath.Escalation.{Escalates, analyze_iff}
use vector_guard.SlowPath.Outcome.{analyze_outcome}
use vector_guard.SlowPath.Context.{
  Vector, ring_of, ContextWindow, Ring, context_vector, new, prune_stale_pids, push, push_ring,
}
use vector_guard.SlowPath.Context.Window.{recent, push_ring-window}
use vector_guard.SlowPath.Context.Stale.{Reached, WellFormed, start, step, never_stale}
use vector_guard.Samples.{event_of}

abbrev fresh : ContextWindow whole
fresh = new whole 60 2

abbrev pub sample_slow_path : SlowPath whole
sample_slow_path = record {
  dim = 2;
  backend = VectorDbBackend.qdrant;
  threshold = 0;
  enabled = true;
  available = true;
  context = fresh;
}

-- The provider answers with one vector, and the database knows no neighbour of it.
abbrev pub sample_services : Services whole
sample_services = record {
  show_ip = λ ip. [];
  provider = λ text. some (1 ∷ 2 ∷ []);
  qdrant_search = λ v limit threshold. some [];
}

abbrev let_pass : NormalizedEvent Unit
let_pass = event_of (codes "miner") EventType.exec Action.allowed

analyze_iff_example :
    ((analyze whole sample_services sample_slow_path let_pass).1.action ≢ Action.allowed)
    ↔ Escalates whole sample_services sample_slow_path let_pass
analyze_iff_example = analyze_iff whole sample_services sample_slow_path let_pass

run_analyze : (analyze whole sample_services sample_slow_path let_pass).1.action ≡ Action.alerted
unfolding analyze embed
run_analyze = refl

analyze_outcome_example :
    let after = (analyze whole sample_services sample_slow_path let_pass).1 in
    (after ≡ let_pass)
    ⊎ ((after ≡ record let_pass { action = Action.alerted; severity = after.severity })
        × (2 ≤ rank after.severity)
        × (rank let_pass.severity ≤ rank after.severity))
analyze_outcome_example = analyze_outcome whole sample_services sample_slow_path let_pass

abbrev sample_ring : Ring whole
sample_ring = (10, 1 ∷ []) ∷ (50, 2 ∷ []) ∷ []

push_ring-window_example :
    let kept = filter (recent whole (60 - 20)) (sample_ring ++ (60, 3 ∷ []) ∷ []) in
    push_ring whole 20 60 (3 ∷ []) sample_ring ≡ drop (length kept - 32) kept
push_ring-window_example =
    push_ring-window whole 20 60 (3 ∷ []) sample_ring ((omega arith, tt), (tt, tt))
      (omega arith, (omega arith, tt))

abbrev used : ContextWindow whole
used = push whole fresh 7 100 (3 ∷ 4 ∷ [])

never_stale_example :
    WellFormed whole used
    × (prune_stale_pids whole (push whole used 8 200 (5 ∷ [])) ≡ push whole used 8 200 (5 ∷ []))
    × ((p : ℕ)
        → lookup ◌==◌ p (prune_stale_pids whole (push whole used 8 200 (5 ∷ []))).store ≡ (
            if 8 == p
            then some (push_ring whole used.window_ns 200 (5 ∷ []) (ring_of whole used.store 8))
            else lookup ◌==◌ p used.store))
never_stale_example = never_stale whole used 8 200 (5 ∷ []) (
    subst (Reached whole) (never_stale whole fresh 7 100 (3 ∷ 4 ∷ []) (start 60 2)).1
      (step 7 100 (3 ∷ 4 ∷ []) (start 60 2)))

run_context : context_vector whole used 7 ≡ some (0 ∷ 0 ∷ [])
unfolding context_vector push push_ring lookup insert
run_context = refl

-- JSON that holds one text under "status": an error of Qdrant.
abbrev error_value : Value Text ℕ
error_value = record {
  get = λ j key. if text_eq key (codes "status") then some j else none;
  at = λ j key. if text_eq key (codes "status") then j else [];
  nth = λ j i. [];
  as_array = λ j. none;
  as_f32 = λ j. none;
  as_u64 = λ j. none;
}

abbrev missing : Answer Text
missing = record { status = 404; json = some (codes "Not found: Collection") }

abbrev refuse : Call ℕ → Option (Answer Text)
refuse c = some missing

abbrev qdrant : Target
qdrant = record { base_url = codes "http://localhost:6333"; name = codes "baseline" }

all_refused :
    (v : Vector whole)
    → (a : Answer Text) × (refuse (search_call qdrant v 5 0) ≡ some a)
      × NoResult whole error_value refuse qdrant a
all_refused v =
    (missing, refl, record { body = codes "Not found: Collection"; decoded = refl; no_list = refl })

analyze-refused_example :
    ((analyze whole
        (with_qdrant whole error_value refuse qdrant (λ ip. []) (λ text. some (1 ∷ 2 ∷ [])))
        sample_slow_path
        let_pass).1.action
      ≡ Action.alerted)
    ↔ ((let_pass.action ≡ Action.alerted)
        ⊎ ((let_pass.action ≡ Action.allowed)
            × ((v : Vector whole) × (embed (λ ip. []) (λ text. some (1 ∷ 2 ∷ [])) 2 let_pass
                  ≡ some v))))
analyze-refused_example =
    analyze-refused whole error_value refuse qdrant (λ ip. []) (λ text. some (1 ∷ 2 ∷ []))
      sample_slow_path let_pass refl refl refl all_refused

run_refused :
    (analyze whole
      (with_qdrant whole error_value refuse qdrant (λ ip. []) (λ text. some (1 ∷ 2 ∷ [])))
      sample_slow_path
      let_pass).1.action
    ≡ Action.alerted
unfolding analyze embed qdrant_search
run_refused = refl

run_ensure :
    map (λ c. c.method) (qdrant_ensure error_value refuse qdrant 64).0
    ≡ Method.get ∷ Method.put ∷ []
unfolding qdrant_ensure
run_ensure = refl
