-- ===== src/Tui/ProcessTree/Shown.antt =====
-- Every process that hangs below a top one has one row, at its depth, and no other process has any.
use vector_guard.Prelude.{
  ==_iff, All, Bool-cases, List, [], ap, arith, false, if◌then◌else◌, inl, inr, length, lookup,
  map_opt, refl, some, subst, suc, sym, true, ℕ, ◌++◌, ◌+◌, ◌==◌, ◌∙◌, ◌∷◌, ◌≡◌, ◌⊎◌,
}
use vector_guard.Tui.{ProcessNode}
use vector_guard.Tui.ProcessTree.{
  Nodes, Walk, has, visit, roots, dfs, walk, rows_of, process_tree_rows,
}
use vector_guard.Tui.ProcessTree.Lists.{all_pids, roots-all_pids, children-all_pids}
use vector_guard.Tui.ProcessTree.Walks.{IsGrown, each_rule, dfs_rule}
use vector_guard.Tui.ProcessTree.Total.{start, walk_grows}
use vector_guard.Tui.ProcessTree.Rows.{Descends, IsKeyed, has-roots, has-children, child, top}

-- How often a pid occurs.
abbrev pub count : ℕ → List ℕ → ℕ
count p [] = 0
count p (x ∷ xs) = if x == p then suc (count p xs) else count p xs

abbrev pub seconds : List (ℕ × ℕ) → List ℕ
seconds [] = []
seconds ((d, p) ∷ order) = p ∷ seconds order

abbrev pub row_pids : List (ℕ × ProcessNode) → List ℕ
row_pids [] = []
row_pids ((d, n) ∷ rows) = n.pid ∷ row_pids rows

count-seconds_snoc :
    (p d q : ℕ) (order : List (ℕ × ℕ))
    → count p (seconds (order ++ (d, q) ∷ [])) ≡ count p (seconds order) + (if q == p then 1 else 0)
count-seconds_snoc p d q [] = ground arith
count-seconds_snoc p d q (e ∷ order) = ground (arith, count-seconds_snoc p d q order)

All-snoc {ℓ} :
    {A : Type ℓ} (P : A → Type 0) (xs : List A) (x : A) → All P xs → P x → All P (xs ++ x ∷ [])
All-snoc P [] x h i = (i, tt)
All-snoc P (y ∷ xs) x h i = (h.0, All-snoc P xs x h.1 i)

module _ (m : Nodes) where
  -- The visited pids are those of the rows, each once, and the rows stand at their depths.
  record IsTidy (w : Walk) : Type 0 where
    once : (p : ℕ) → count p (seconds w.result) ≡ (if has p w.visited then 1 else 0)
    deep : All (λ r. Descends m r.0 r.1) w.result

  IsTidy-start : IsTidy start
  IsTidy-start = record { once = λ p. refl; deep = tt }

  IsTidy-visit :
      (d p : ℕ) (w : Walk)
      → Descends m d p
      → IsTidy w
      → has p w.visited ≡ false
      → IsTidy (visit d p w)
  IsTidy-visit d p w below t new = record {
    once = λ q. ground (arith, count-seconds_snoc q d p w.result, t.once q, ==_iff p q);
    deep = All-snoc (λ r. Descends m r.0 r.1) w.result (d, p) t.deep below;
  }

  walk-IsTidy : (fuel : ℕ) (w : Walk) → walk m fuel ≡ some w → IsTidy w
  unfolding walk
  walk-IsTidy fuel w e =
      each_rule m IsTidy (Descends m) 0 (dfs m fuel 0)
        (λ p u v below t f.
          dfs_rule m IsTidy (Descends m) (λ d q c i h. child i ((has-children m q c).0 h))
            IsTidy-visit fuel 0 p u v below t f)
        (roots m) start w (λ p h. top ((has-roots m p).0 h)) IsTidy-start e

  -- What descends from the top is visited.
  Descends-visited :
      (w : Walk) {d p : ℕ} → IsGrown m (roots m) start w → Descends m d p → has p w.visited ≡ true
  Descends-visited w {p = p} g (top t) = g.starts p ((has-roots m p).1 t)
  Descends-visited w {p = c} g (child {p = q} i h) =
      g.closed q c (Descends-visited w g i) refl ((has-children m q c).1 h)

  known_of_deep : (d p : ℕ) → Descends m d p → has p (all_pids m) ≡ true
  known_of_deep d p (top t) = roots-all_pids m p ((has-roots m p).1 t)
  known_of_deep d p (child {p = q} i c) = children-all_pids m q p ((has-children m q p).1 c)

  lookup-known :
      (p : ℕ)
      → IsKeyed m
      → has p (all_pids m) ≡ true
      → (n : ProcessNode) × (lookup ◌==◌ p m ≡ some n) × (n.pid ≡ p)
  unfolding lookup
  lookup-known p = go m
    where
      go :
          (l : Nodes)
          → IsKeyed l
          → has p (all_pids l) ≡ true
          → (n : ProcessNode) × (lookup ◌==◌ p l ≡ some n) × (n.pid ≡ p)
      go [] k h = cc
      go ((j, n) ∷ l) k h = elim (Bool-cases (j == p)) [
        | inl e ↦ (n, ground arith, ground arith)
        | inr e ↦ let (o, f, g) = go l k.1 (ground arith) in (o, ground arith, g)
      ]

  rows_of_deep :
      (order : List (ℕ × ℕ))
      → IsKeyed m
      → All (λ r. Descends m r.0 r.1) order
      → (row_pids (rows_of m order) ≡ seconds order)
        × All (λ r. Descends m r.0 r.1.pid) (rows_of m order)
  unfolding rows_of
  rows_of_deep [] k h = (refl, tt)
  rows_of_deep ((d, p) ∷ order) k h =
      let (n, e, f) = lookup-known p k (known_of_deep d p h.0) in
      let (g, i) = rows_of_deep order k h.1 in
      rw (e, rows_of) (ground arith, (subst (Descends m d) (sym f) h.0, i))

  count_deep :
      (p : ℕ) (order : List (ℕ × ℕ))
      → All (λ r. Descends m r.0 r.1) order
      → (count p (seconds order) ≡ 0) ⊎ ((d : ℕ) × Descends m d p)
  count_deep p [] h = inl refl
  count_deep p ((d, q) ∷ order) h = elim (Bool-cases (q == p)) [
    | inl e ↦ inr (d, subst (Descends m d) ((==_iff q p).0 e) h.0)
    | inr e ↦ elim (count_deep p order h.1) [ inl z ↦ inl (rw e z) | inr i ↦ inr i ]
  ]

-- The rows are made for every map of processes, cycles among the parents included. A process that
-- descends from a top one (whose parent is 0 or not known) by steps from parent to child has exactly
-- one row, and every other process has none; the depth of each row is the number of steps. Condition:
-- each node stands in the map under its own pid.
pub process_tree_rows_lem :
    (m : Nodes)
    → IsKeyed m
    → (rows : List (ℕ × ProcessNode)) × (process_tree_rows m ≡ some rows)
      × ((d p : ℕ) → Descends m d p → count p (row_pids rows) ≡ 1)
      × ((p : ℕ) → ((d : ℕ) → ¬ Descends m d p) → count p (row_pids rows) ≡ 0)
      × All (λ r. Descends m r.0 r.1.pid) rows
unfolding process_tree_rows
process_tree_rows_lem m k =
    let (w, e, g) = walk_grows m (suc (length m)) (omega arith) in
    let t = walk-IsTidy m (suc (length m)) w e in
    let (ids, depths) = rows_of_deep m w.result k t.deep in
    (
      rows_of m w.result,
      ap (map_opt (λ v. rows_of m v.result)) e,
      λ d p i. rw ids (t.once p ∙ rw (Descends-visited m w g i) refl),
      λ p i.
          rw ids
            (elim (count_deep m p w.result t.deep) [ inl z ↦ z | inr (d, j) ↦ absurd (i d j) ]),
      depths,
    )
