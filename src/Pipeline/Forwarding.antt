-- ===== src/Pipeline/Forwarding.antt =====
-- What leaves the pipeline, and what the slow path's queue takes and drops.
use vector_guard.Prelude.{
  Bool, Bool-cases, List, [], ap, append-nil, append_assoc, false, if◌then◌else◌, inl, inr, length,
  ltb, refl, sym, true, ℕ, ◌&&◌, ◌++◌, ◌∙◌, ◌∷◌, ◌≡◌,
}
use vector_guard.Event.{NormalizedEvent}
use vector_guard.Float.{Float}
use vector_guard.Glob.{Glob}
use vector_guard.Scope.{ScopeFilter, allows}
use vector_guard.FastPath
use vector_guard.FastPath.{FastPath}
use vector_guard.Incident.{record_event}
use vector_guard.Advisor
use vector_guard.Pipeline.{
  hand_over, State, Surroundings, on_event, run, stages, slow_capacity, saturating_inc,
}

if_true {ℓ} : {A : Type ℓ} (b : Bool) (x y : A) → b ≡ true → (if b then x else y) ≡ x
if_true b x y h = rw h refl

module _ {f : Float} {g : Glob} {J : Type 0} where
  -- The events in scope, each as the fast path decides it.
  abbrev pub decisions :
      ScopeFilter g
      → FastPath
      → List (Surroundings f g J × NormalizedEvent J)
      → List (NormalizedEvent J)
  decisions scope fp [] = []
  decisions scope fp ((w, event) ∷ inputs) =
      let rest = decisions scope fp inputs in
      if allows g scope event then FastPath.evaluate g fp event ∷ rest else rest

  abbrev pub fits : State f g J → Bool
  fits st = st.slow_open && ltb (length st.slow_queue) slow_capacity

  -- The state after an event that the fast path has decided as `event`.
  abbrev pub next : Surroundings f g J → State f g J → NormalizedEvent J → State f g J
  next w st event = record st {
    log = (record_event w.to_json w.locked st.log event).0;
    ai_advisor = (Advisor.analyze w.advice st.ai_advisor event).0;
    slow_queue = if fits st then st.slow_queue ++ event ∷ [] else st.slow_queue;
    slow_drops = if fits st then st.slow_drops else saturating_inc st.slow_drops;
    sent = st.sent ++ event ∷ [];
  }

  taken_or_dropped :
      (b : Bool) (st : State f g J) (queue : List (NormalizedEvent J)) (drops : ℕ)
      → (if b then record st { slow_queue = queue } else record st { slow_drops = drops })
        ≡ record st {
          slow_queue = if b then queue else st.slow_queue;
          slow_drops = if b then st.slow_drops else drops;
        }
  taken_or_dropped true st queue drops = refl
  taken_or_dropped false st queue drops = refl

  stages-eq :
      (w : Surroundings f g J) (st : State f g J) (event : NormalizedEvent J)
      → st.proc_open ≡ true
      → stages f g J w st event ≡ (next w st event, true)
  stages-eq w st event live =
      ap (λ s. hand_over f g J s event) (taken_or_dropped (fits st) _ _ _)
      ∙ if_true st.proc_open _ _ live

  pub on_event-in :
      (w : Surroundings f g J) (st : State f g J) (event : NormalizedEvent J)
      → st.proc_open ≡ true
      → allows g st.scope_filter event ≡ true
      → on_event f g J w st event ≡ (next w st (FastPath.evaluate g st.fast_path event), true)
  unfolding on_event
  on_event-in w st event live inside = rw inside (stages-eq w st _ live)

  -- An event out of scope has no effect: the filter, the advisor's counts, the incident log, the
  -- slow path's queue and the events sent are what they were, and the loop goes on.
  on_event-out :
      (w : Surroundings f g J) (st : State f g J) (event : NormalizedEvent J)
      → allows g st.scope_filter event ≡ false
      → on_event f g J w st event ≡ (st, true)
  unfolding on_event
  on_event-out w st event outside = rw outside refl

  pub run-in :
      (w : Surroundings f g J) (event : NormalizedEvent J)
      (inputs : List (Surroundings f g J × NormalizedEvent J)) (st : State f g J)
      → st.proc_open ≡ true
      → allows g st.scope_filter event ≡ true
      → run f g J ((w, event) ∷ inputs) st
        ≡ run f g J inputs (next w st (FastPath.evaluate g st.fast_path event))
  unfolding run
  run-in w event inputs st live inside = rw (on_event-in w st event live inside) refl

  pub run-out :
      (w : Surroundings f g J) (event : NormalizedEvent J)
      (inputs : List (Surroundings f g J × NormalizedEvent J)) (st : State f g J)
      → allows g st.scope_filter event ≡ false
      → run f g J ((w, event) ∷ inputs) st ≡ run f g J inputs st
  unfolding run
  run-out w event inputs st outside = rw (on_event-out w st event outside) refl

  -- While the user interface listens, a run sends exactly the events in scope, each with the
  -- decision of the fast path, in the order of their arrival, whatever happens to the incident
  -- log, the advisor and the slow path's queue.
  pub run-sent :
      (inputs : List (Surroundings f g J × NormalizedEvent J)) (st : State f g J)
      → st.proc_open ≡ true
      → (run f g J inputs st).sent ≡ st.sent ++ decisions st.scope_filter st.fast_path inputs
  run-sent [] st live = unfold run in sym (append-nil st.sent)
  run-sent ((w, event) ∷ inputs) st live = elim (Bool-cases (allows g st.scope_filter event)) [
    | inl e ↦ rw e (
        ap (λ s. s.sent) (run-in w event inputs st live e)
        ∙ run-sent inputs (next w st (FastPath.evaluate g st.fast_path event)) live
        ∙ append_assoc st.sent (FastPath.evaluate g st.fast_path event ∷ []) _)
    | inr e ↦ rw e (ap (λ s. s.sent) (run-out w event inputs st e) ∙ run-sent inputs st live)
  ]
