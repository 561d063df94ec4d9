-- ===== src/SlowPath/Context/Window.antt =====
-- What a ring holds after a push.
use vector_guard.Prelude.{
  All, Bool, Bool-cases, List, [], ap, arith, drop, false, filter, inl, inr, leb, length,
  length-drop, ltb, refl, suc, sym, true, ℕ, ◌++◌, ◌-◌, ◌∙◌, ◌∷◌, ◌≡◌, ◌≤◌,
}
use vector_guard.Float.{Float}
use vector_guard.SlowPath.Context.{Vector, Ring, prune_old, cap_ring, push_ring}

module _ {ℓ} {A : Type ℓ} where
  pub filter_all : (p : A → Bool) (xs : List A) → All (λ x. p x ≡ true) xs → filter p xs ≡ xs
  filter_all p [] h = refl
  filter_all p (x ∷ xs) h = rw h.0 (ap (λ l. x ∷ l) (filter_all p xs h.1))

  All-imp : {P Q : A → Type 0} → ((a : A) → P a → Q a) → (xs : List A) → All P xs → All Q xs
  All-imp f [] h = tt
  All-imp f (x ∷ xs) h = (f x h.0, All-imp f xs h.1)

module _ (f : Float) where
  -- Every entry is as old as those after it, or older.
  abbrev pub InOrder : Ring f → Type 0
  InOrder [] = Unit
  InOrder ((t, v) ∷ ring) = All (λ e. t ≤ e.0) ring × InOrder ring

  abbrev pub recent : ℕ → ℕ × Vector f → Bool
  recent cutoff e = leb cutoff e.0

  prune_old-eq-filter :
      (cutoff : ℕ) (ring : Ring f)
      → InOrder ring
      → prune_old f cutoff ring ≡ filter (recent cutoff) ring
  unfolding prune_old
  prune_old-eq-filter cutoff [] h = refl
  prune_old-eq-filter cutoff ((t, v) ∷ ring) h = elim (Bool-cases (ltb t cutoff)) [
    | inl e ↦
        let old : recent cutoff (t, v) ≡ false = ground arith in
        rw (e, old) (prune_old-eq-filter cutoff ring h.1)
    | inr e ↦
        let new : recent cutoff (t, v) ≡ true = ground arith in
        rw (e, new)
          (ap (λ l. (t, v) ∷ l)
            (sym (filter_all (recent cutoff) ring (All-imp (λ x q. keeps x.0 q e) ring h.0))))
  ]
    where
      keeps : (s : ℕ) → t ≤ s → ltb t cutoff ≡ false → leb cutoff s ≡ true
      keeps s q e = ground arith

  cap_ring-eq-drop : (ring : Ring f) → cap_ring f ring ≡ drop (length ring - 32) ring
  unfolding cap_ring
  cap_ring-eq-drop [] = refl
  cap_ring-eq-drop (x ∷ ring) = elim (Bool-cases (ltb 32 (length (x ∷ ring)))) [
    | inl e ↦ rw e (
        let len : suc (length ring) - 32 ≡ suc (length ring - 32) = ground arith in
        rw len (cap_ring-eq-drop ring))
    | inr e ↦ rw e (let len : suc (length ring) - 32 ≡ 0 = ground arith in rw len refl)
  ]

  InOrder-snoc :
      (ring : Ring f) (t : ℕ) (v : Vector f)
      → InOrder ring
      → All (λ e. e.0 ≤ t) ring
      → InOrder (ring ++ (t, v) ∷ [])
  InOrder-snoc [] t v h k = (tt, tt)
  InOrder-snoc ((s, w) ∷ ring) t v h k = (later ring h.0, InOrder-snoc ring t v h.1 k.1)
    where
      later : (r : Ring f) → All (λ e. s ≤ e.0) r → All (λ e. s ≤ e.0) (r ++ (t, v) ∷ [])
      later [] a = (k.0, tt)
      later (x ∷ r) a = (a.0, later r a.1)

  -- For events in the order of their time stamps, a push leaves the last 32 of the entries, the new
  -- one included, that are no older than the window reaches back from the new one.
  pub push_ring-window :
      (window_ns timestamp : ℕ) (v : Vector f) (ring : Ring f)
      → InOrder ring
      → All (λ e. e.0 ≤ timestamp) ring
      → let kept = filter (recent (timestamp - window_ns)) (ring ++ (timestamp, v) ∷ []) in
        push_ring f window_ns timestamp v ring ≡ drop (length kept - 32) kept
  unfolding push_ring
  push_ring-window window_ns timestamp v ring ordered before =
      ap (cap_ring f) (prune_old-eq-filter _ _ (InOrder-snoc ring timestamp v ordered before))
      ∙ cap_ring-eq-drop (filter (recent (timestamp - window_ns)) (ring ++ (timestamp, v) ∷ []))

  prune_old-snoc :
      (cutoff t : ℕ) (v : Vector f) (ring : Ring f)
      → cutoff ≤ t
      → prune_old f cutoff (ring ++ (t, v) ∷ []) ≡ prune_old f cutoff ring ++ (t, v) ∷ []
  unfolding prune_old
  prune_old-snoc cutoff t v [] h = let e : ltb t cutoff ≡ false = ground arith in rw e refl
  prune_old-snoc cutoff t v ((s, w) ∷ ring) h = elim (Bool-cases (ltb s cutoff)) [
    | inl e ↦ rw e (prune_old-snoc cutoff t v ring h)
    | inr e ↦ rw e refl
  ]

  cap_ring-snoc :
      (ring : Ring f) (x : ℕ × Vector f)
      → (before : Ring f) × (cap_ring f (ring ++ x ∷ []) ≡ before ++ x ∷ [])
  unfolding cap_ring
  cap_ring-snoc [] x = ([], refl)
  cap_ring-snoc (y ∷ ring) x = elim (Bool-cases (ltb 32 (length (y ∷ ring ++ x ∷ [])))) [
    | inl e ↦ rw e (cap_ring-snoc ring x)
    | inr e ↦ (y ∷ ring, rw e refl)
  ]

  -- Whatever the order of the time stamps, after a push the newest entry of the ring is the pushed
  -- one, and there are at most 32 entries.
  pub push_ring_last :
      (window_ns timestamp : ℕ) (v : Vector f) (ring : Ring f)
      → ((before : Ring f) × (push_ring f window_ns timestamp v ring
            ≡ before ++ (timestamp, v) ∷ []))
        × (length (push_ring f window_ns timestamp v ring) ≤ 32)
  unfolding push_ring
  push_ring_last window_ns timestamp v ring =
      rw (prune_old-snoc (timestamp - window_ns) timestamp v ring (omega arith)) (
        cap_ring-snoc (prune_old f (timestamp - window_ns) ring) (timestamp, v),
        capped (prune_old f (timestamp - window_ns) ring ++ (timestamp, v) ∷ []),
      )
    where
      capped : (r : Ring f) → length (cap_ring f r) ≤ 32
      capped r = rw (cap_ring-eq-drop r) (omega (arith, length-drop (length r - 32) r))
