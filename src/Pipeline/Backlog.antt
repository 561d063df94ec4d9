-- ===== src/Pipeline/Backlog.antt =====
-- The queue between the pipeline and the slow path worker: what it takes, and what is dropped.
use vector_guard.Prelude.{
  Bool, Bool-cases, List, [], ap, append-nil, append_assoc, arith, false, if◌then◌else◌, inl, inr,
  length, length-append, ltb, min, refl, suc, sym, take, true, zero, ℕ, ◌++◌, ◌+◌, ◌-◌, ◌<◌, ◌^◌,
  ◌∙◌, ◌∷◌, ◌≡◌, ◌≤◌,
}
use vector_guard.Event.{NormalizedEvent}
use vector_guard.Float.{Float}
use vector_guard.Glob.{Glob}
use vector_guard.Scope.{allows}
use vector_guard.FastPath
use vector_guard.Pipeline.{State, Surroundings, run, slow_capacity, saturating_inc}
use vector_guard.Pipeline.Forwarding.{decisions, fits, next, run-in, run-out}

saturated :
    (drops n room : ℕ)
    → room ≡ 0
    → min (saturating_inc drops + (n - room)) (2 ^ 64 - 1)
      ≡ min (drops + (suc n - room)) (2 ^ 64 - 1)
saturated drops n room h = omega arith

module _ {E : Type 0} where
  -- The queue and the count of drops after a run that puts the events `ds` to the worker.
  abbrev pub QueueAfter : List (E) → ℕ → List (E) → List (E) → ℕ → Type 0
  QueueAfter queue drops ds queue' drops' =
      (queue' ≡ queue ++ take (slow_capacity - length queue) ds)
      × (drops' ≡ min (drops + (length ds - (slow_capacity - length queue))) (2 ^ 64 - 1))

  pub take-nil : (n : ℕ) → [] ≡ take {A = E} n []
  take-nil zero = refl
  take-nil (suc n) = refl

  take-suc : (n m : ℕ) (x : E) (xs : List E) → n ≡ suc m → take n (x ∷ xs) ≡ x ∷ take m xs
  take-suc n m x xs h = ap (λ k. take k (x ∷ xs)) h

  pub offered :
      (b : Bool) (queue : List (E)) (drops : ℕ) (x : E) (ds queue' : List (E)) (drops' : ℕ)
      → ltb (length queue) slow_capacity ≡ b
      → QueueAfter
          (if b then queue ++ x ∷ [] else queue)
          (if b then drops else saturating_inc drops)
          ds
          queue'
          drops'
      → QueueAfter queue drops (x ∷ ds) queue' drops'
  offered true queue drops x ds queue' drops' h (q, d) =
      let room : length queue < slow_capacity = ground arith in
      let longer : length (queue ++ x ∷ []) ≡ length queue + 1 = length-append queue (x ∷ []) in
      let left : slow_capacity - length (queue ++ x ∷ []) ≡ slow_capacity - length queue - 1 =
        omega arith in
      (
        q
            ∙ append_assoc queue (x ∷ []) _
            ∙ ap (λ l. queue ++ l)
                (ap (λ n. x ∷ take n ds) left
                  ∙ sym (take-suc _ (slow_capacity - length queue - 1) x ds (omega arith))),
        d ∙ ap (λ n. min (drops + n) (2 ^ 64 - 1)) (omega arith),
      )
  offered false queue drops x ds queue' drops' h (q, d) =
      let full : slow_capacity ≤ length queue = ground arith in
      let none_left : slow_capacity - length queue ≡ 0 = omega arith in
      (
        q
            ∙ ap (λ n. queue ++ take n ds) none_left
            ∙ ap (λ n. queue ++ take n (x ∷ ds)) (sym none_left),
        d ∙ saturated drops (length ds) _ none_left,
      )

module _ {f : Float} {g : Glob} {J : Type 0} where
  -- While the worker takes nothing out and both receivers listen, the queue takes the first decided
  -- events up to its capacity of 1024, in order, and every later one is counted as dropped, in a
  -- counter of 64 bits that stops at 2 ^ 64 - 1.
  pub run-backlog :
      (inputs : List (Surroundings f g J × NormalizedEvent J)) (st : State f g J)
      → st.proc_open ≡ true
      → st.slow_open ≡ true
      → st.slow_drops < 2 ^ 64
      → QueueAfter st.slow_queue st.slow_drops
          (decisions st.scope_filter st.fast_path inputs)
          (run f g J inputs st).slow_queue
          (run f g J inputs st).slow_drops
  run-backlog [] st live listens small =
      unfold run in
      (sym (append-nil st.slow_queue) ∙ ap (λ l. st.slow_queue ++ l) (take-nil _), omega arith)
  run-backlog ((w, event) ∷ inputs) st live listens small =
      elim (Bool-cases (allows g st.scope_filter event)) [
        | inl e ↦
            rw (e, run-in w event inputs st live e)
              (offered (fits st) st.slow_queue st.slow_drops _ _ _ _ (ground arith) (
                run-backlog inputs (next w st (FastPath.evaluate g st.fast_path event)) live listens
                  (small_next (fits st))))
        | inr e ↦ rw (e, run-out w event inputs st e) (run-backlog inputs st live listens small)
      ]
    where
      small_next : (b : Bool) → (if b then st.slow_drops else saturating_inc st.slow_drops) < 2 ^ 64
      small_next true = small
      small_next false = omega arith
