-- ===== src/SlowPath/Context/Stale.antt =====
-- The pruning of stale processes, which finds none.
use vector_guard.Prelude.{
  ==_iff, All, Bool-cases, List, [], ap, arith, false, if◌then◌else◌, inl, inr, insert, is_empty,
  length, lookup, lookup-insert, not, refl, some, true, ℕ, ◌++◌, ◌==◌, ◌∙◌, ◌∷◌, ◌≡◌, ◌≤◌,
}
use vector_guard.Float.{Float}
use vector_guard.SlowPath.Context.{
  Ring, ContextWindow, new, ring_of, push, prune_stale_pids, push_ring,
}
use vector_guard.SlowPath.Context.Window.{filter_all, push_ring_last}

module _ (f : Float) where
  -- A ring in the store holds an entry, and at most 32.
  abbrev pub RingFits : ℕ × Ring f → Type 0
  RingFits entry = (is_empty entry.1 ≡ false) × (length entry.1 ≤ 32)

  abbrev pub WellFormed : ContextWindow f → Type 0
  WellFormed w = All RingFits w.store

  insert-All :
      (pid : ℕ) (ring : Ring f) (store : List (ℕ × Ring f))
      → RingFits (pid, ring)
      → All RingFits store
      → All RingFits (insert ◌==◌ pid ring store)
  unfolding insert
  insert-All pid ring [] h a = (h, tt)
  insert-All pid ring ((p, r) ∷ store) h a = elim (Bool-cases (p == pid)) [
    | inl e ↦ rw e (h, a.1)
    | inr e ↦ rw e (a.0, insert-All pid ring store h a.1)
  ]

  not-empty-snoc :
      (r before : Ring f) (x : ℕ × List f.F) → r ≡ before ++ x ∷ [] → is_empty r ≡ false
  not-empty-snoc r [] x e = rw e refl
  not-empty-snoc r (y ∷ before) x e = rw e refl

  pub push-WellFormed :
      (w : ContextWindow f) (pid timestamp : ℕ) (v : List f.F)
      → WellFormed w
      → WellFormed (push f w pid timestamp v)
  unfolding push
  push-WellFormed w pid timestamp v h =
      let ((before, e), short) = push_ring_last f w.window_ns timestamp v (ring_of f w.store pid) in
      insert-All pid _ w.store (not-empty-snoc _ before (timestamp, v) e, short) h

  pub prune_stale_pids-id : (w : ContextWindow f) → WellFormed w → prune_stale_pids f w ≡ w
  unfolding prune_stale_pids
  prune_stale_pids-id w h = rw (filter_all _ w.store (nonempty w.store h)) refl
    where
      nonempty :
          (s : List (ℕ × Ring f))
          → All RingFits s
          → All (λ (pid, ring). not (is_empty ring) ≡ true) s
      nonempty [] a = tt
      nonempty ((p, r) ∷ s) a = (ground arith, nonempty s a.1)

  -- The windows that the slow path can reach: a new one, then a push and a pruning for each event.
  pub data Reached : ContextWindow f → Type 0 where
    start : (secs dim : ℕ) → Reached (new f secs dim)
    step :
        {w : ContextWindow f} (pid timestamp : ℕ) (v : List f.F)
        → Reached w
        → Reached (prune_stale_pids f (push f w pid timestamp v))

  pub Reached-WellFormed : {w : ContextWindow f} → Reached w → WellFormed w
  Reached-WellFormed (start secs dim) = tt
  Reached-WellFormed (step {w} pid timestamp v r) =
      let h = push-WellFormed w pid timestamp v (Reached-WellFormed r) in
      rw (prune_stale_pids-id (push f w pid timestamp v) h) h

  -- In every window that is reached, each ring has between one and 32 entries. An event changes the
  -- ring of its own process and no other: the pruning that follows the push removes nothing, so each
  -- process that has a ring keeps it, however old its entries are.
  pub never_stale :
      (w : ContextWindow f) (pid timestamp : ℕ) (v : List f.F)
      → Reached w
      → WellFormed w
        × (prune_stale_pids f (push f w pid timestamp v) ≡ push f w pid timestamp v)
        × ((p : ℕ)
            → lookup ◌==◌ p (prune_stale_pids f (push f w pid timestamp v)).store ≡ (
                if pid == p
                then some (push_ring f w.window_ns timestamp v (ring_of f w.store pid))
                else lookup ◌==◌ p w.store))
  unfolding push
  never_stale w pid timestamp v r =
      let h = Reached-WellFormed r in
      let kept = prune_stale_pids-id _ (push-WellFormed w pid timestamp v h) in
      (
        h,
        kept,
        λ p.
            ap (λ u. lookup ◌==◌ p u.store) kept
            ∙ lookup-insert ◌==◌ ==_iff pid p
                (push_ring f w.window_ns timestamp v (ring_of f w.store pid)) w.store,
      )
