-- ===== src/SlowPath/Context/Vectors.antt =====
-- The dimension of a context vector.
use vector_guard.Prelude.{
  Bool-cases, [], ap, inl, inr, length, length-replicate, map, none, refl, some, suc, sym,
  unwrap_or, ℕ, ◌+◌, ◌∙◌, ◌∷◌, ◌≡◌, ◌≢◌,
}
use vector_guard.Float.{Float}
use vector_guard.SlowPath.Context.{
  Vector, Ring, ContextWindow, add_weighted, accumulate, div_all, vector_of, ring_of,
  context_vector,
}

module _ (f : Float) where
  length-add_weighted :
      (weight : f.F) (result vec : Vector f)
      → length (add_weighted f weight result vec) ≡ length result
  unfolding add_weighted
  length-add_weighted weight [] vec = refl
  length-add_weighted weight (r ∷ rs) [] = refl
  length-add_weighted weight (r ∷ rs) (v ∷ vs) = ap suc (length-add_weighted weight rs vs)

  length-accumulate :
      (n : f.F) (i : ℕ) (ring : Ring f) (result : Vector f) (total : f.F)
      → length (accumulate f n i ring result total).0 ≡ length result
  unfolding accumulate
  length-accumulate n i [] result total = refl
  length-accumulate n i ((ts, vec) ∷ ring) result total =
      length-accumulate n (i + 1) ring _ _ ∙ length-add_weighted _ result vec

  length-map_same : (g : f.F → f.F) (v : Vector f) → length (map g v) ≡ length v
  length-map_same g [] = refl
  length-map_same g (x ∷ v) = ap suc (length-map_same g v)

  pub length-div_all : (d : f.F) (v : Vector f) → length (div_all f d v) ≡ length v
  length-div_all d v = elim (Bool-cases (f.lt f.tiny d)) [
    | inl e ↦ rw e (length-map_same (λ x. f.div x d) v)
    | inr e ↦ rw e refl
  ]

  -- A context vector has the dimension of the window, whatever the dimensions of the vectors that
  -- were pushed, and its process has an entry in its ring.
  context_vector_dim :
      (w : ContextWindow f) (pid : ℕ) (v : Vector f)
      → context_vector f w pid ≡ some v
      → (length v ≡ w.vector_dim) × (ring_of f w.store pid ≢ [])
  unfolding context_vector
  context_vector_dim w pid v = go (ring_of f w.store pid)
    where
      go :
          (ring : Ring f)
          → vector_of f w.vector_dim ring ≡ some v
          → (length v ≡ w.vector_dim) × (ring ≢ [])
      go [] h = cc
      go (e ∷ ring) h = (
        sym (ap (λ o. length (unwrap_or o [])) h)
            ∙ length-div_all _ _
            ∙ length-div_all _ _
            ∙ length-accumulate _ 0 (e ∷ ring) _ _
            ∙ length-replicate w.vector_dim f.zero_f,
        λ q. cc,
      )

  pub context_vector-none :
      (w : ContextWindow f) (pid : ℕ) → ring_of f w.store pid ≡ [] → context_vector f w pid ≡ none
  unfolding context_vector
  context_vector-none w pid h = rw h refl
