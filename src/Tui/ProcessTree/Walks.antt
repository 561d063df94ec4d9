-- ===== src/Tui/ProcessTree/Walks.antt =====
-- Walks over the processes: what a walk adds to the visited pids, and the rule for what it keeps.
use vector_guard.Prelude.{
  ==_iff, Bool-cases, List, Option, Option-cases, [], arith, false, inl, inr, refl, some, subst,
  suc, sym, true, unwrap_or, zero, ℕ, ◌+◌, ◌<◌, ◌==◌, ◌∷◌, ◌≡◌,
}
use vector_guard.Tui.ProcessTree.{Nodes, Walk, has, visit, each, children, dfs}
use vector_guard.Tui.ProcessTree.Lists.{
  all_pids, unvisited, unvisited_mono, unvisited_visit, children-all_pids,
}

module _ (m : Nodes) where
  -- From `w` to `v`: nothing is forgotten, the pids to start from are visited, and with every pid
  -- that is new its children are visited.
  pub record IsGrown (start : List ℕ) (w v : Walk) : Type 0 where
    pub keeps : (x : ℕ) → has x w.visited ≡ true → has x v.visited ≡ true
    pub starts : (x : ℕ) → has x start ≡ true → has x v.visited ≡ true
    pub closed :
        (x y : ℕ)
        → has x v.visited ≡ true
        → has x w.visited ≡ false
        → has y (children m x) ≡ true
        → has y v.visited ≡ true

  IsGrown-nil : (w : Walk) → IsGrown [] w w
  IsGrown-nil w = record { keeps = λ x h. h; starts = λ x h. cc; closed = λ x y h k c. cc }

  IsGrown-cons :
      (p : ℕ) (ps : List ℕ) (u w v : Walk)
      → IsGrown (p ∷ []) u w
      → IsGrown ps w v
      → IsGrown (p ∷ ps) u v
  IsGrown-cons p ps u w v g h = record {
    keeps = λ x e. h.keeps x (g.keeps x e);
    starts = λ x e. ground (arith, g.starts x, h.keeps x, h.starts x);
    closed = λ x y e k c. elim (Bool-cases (has x w.visited)) [
      | inl old ↦ h.keeps y (g.closed x y old k c)
      | inr new ↦ h.closed x y e new c
    ];
  }

  IsGrown-visit :
      (depth p : ℕ) (w v : Walk) → IsGrown (children m p) (visit depth p w) v → IsGrown (p ∷ []) w v
  IsGrown-visit depth p w v g = record {
    keeps = λ x e. g.keeps x (ground arith);
    starts = λ x e. g.keeps x (ground arith);
    closed = λ x y e k c. elim (Bool-cases (p == x)) [
      | inl same ↦
          g.starts y (subst (λ z. has y (children m z) ≡ true) (sym ((==_iff p x).0 same)) c)
      | inr other ↦ g.closed x y e (ground arith) c
    ];
  }

  IsGrown-again : (p : ℕ) (w : Walk) → has p w.visited ≡ true → IsGrown (p ∷ []) w w
  IsGrown-again p w h = record {
    keeps = λ x e. e;
    starts = λ x e. ground arith;
    closed = λ x y e k c. cc;
  }

  -- The walk from a list of pids ends if the walks from each of them do.
  pub each_grows :
      (fuel : ℕ) (body : ℕ → Walk → Option Walk)
      → ((p : ℕ) (w : Walk)
          → has p (all_pids m) ≡ true
          → unvisited (all_pids m) w.visited < fuel
          → (v : Walk) × (body p w ≡ some v) × IsGrown (p ∷ []) w v)
      → (ps : List ℕ) (w : Walk) → ((x : ℕ) → has x ps ≡ true → has x (all_pids m) ≡ true)
      → unvisited (all_pids m) w.visited < fuel
      → (v : Walk) × (each body ps w ≡ some v) × IsGrown ps w v
  each_grows fuel body step [] w known h = (w, refl, IsGrown-nil w)
  each_grows fuel body step (p ∷ ps) w known h =
      let (u, e, g) = step p w (known p (ground arith)) h in
      let less = unvisited_mono (all_pids m) w.visited u.visited g.keeps in
      let (v, f, k) =
        each_grows fuel body step ps u (λ x i. known x (ground arith)) (omega arith) in
      (v, rw (e, each) f, IsGrown-cons p ps w u v g k)

  pub dfs_grows :
      (fuel depth p : ℕ) (w : Walk)
      → has p (all_pids m) ≡ true
      → unvisited (all_pids m) w.visited < fuel
      → (v : Walk) × (dfs m fuel depth p w ≡ some v) × IsGrown (p ∷ []) w v
  unfolding dfs
  dfs_grows zero depth p w known h = absurd (omega arith)
  dfs_grows (suc fuel) depth p w known h = elim (Bool-cases (has p w.visited)) [
    | inl old ↦ (w, rw old refl, IsGrown-again p w old)
    | inr new ↦
        let less = unvisited_visit (all_pids m) p w.visited known new in
        let (v, e, g) =
          each_grows fuel (dfs m fuel (depth + 1)) (λ q u. dfs_grows fuel (depth + 1) q u)
            (children m p) (visit depth p w) (children-all_pids m p) (omega arith) in
        (v, rw new e, IsGrown-visit depth p w v g)
  ]

-- What holds of a walk is kept if every visit of a new pid keeps it. `D` tells at which depths a
-- pid may be met.
module _ (m : Nodes) (P : Walk → Type 0) (D : ℕ → ℕ → Type 0) where
  pub each_rule :
      (d : ℕ) (body : ℕ → Walk → Option Walk)
      → ((p : ℕ) (w v : Walk) → D d p → P w → body p w ≡ some v → P v)
      → (ps : List ℕ) (w v : Walk) → ((p : ℕ) → has p ps ≡ true → D d p)
      → P w
      → each body ps w ≡ some v
      → P v
  each_rule d body keep [] w v deep h e = subst (λ o. P (unwrap_or o w)) e h
  each_rule d body keep (p ∷ ps) w v deep h e = elim (Option-cases (body p w)) [
    | inl stuck ↦ absurd (ground arith)
    | inr (u, f) ↦
        each_rule d body keep ps u v (λ q i. deep q (ground arith))
          (keep p w u (deep p (ground arith)) h f) (rw (f, each) at e)
  ]

  module _ (below : (d p c : ℕ) → D d p → has c (children m p) ≡ true → D (d + 1) c) where
    pub dfs_rule :
        ((d p : ℕ) (w : Walk) → D d p → P w → has p w.visited ≡ false → P (visit d p w))
        → (fuel d p : ℕ) (w v : Walk) → D d p
        → P w
        → dfs m fuel d p w ≡ some v
        → P v
    unfolding dfs
    dfs_rule keep zero d p w v deep h e = cc
    dfs_rule keep (suc fuel) d p w v deep h e = elim (Bool-cases (has p w.visited)) [
      | inl old ↦ subst (λ o. P (unwrap_or o w)) (rw old at e) h
      | inr new ↦
          each_rule (d + 1) (dfs m fuel (d + 1))
            (λ q u t below_q k f. dfs_rule keep fuel (d + 1) q u t below_q k f) (children m p)
            (visit d p w) v (λ c i. below d p c deep i) (keep d p w deep h new) (rw new at e)
    ]
