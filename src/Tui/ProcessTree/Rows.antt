-- ===== src/Tui/ProcessTree/Rows.antt =====
-- Which processes have a row, at which depth and how often.
use vector_guard.Prelude.{
  All, Any, Any-mono, Bool, Bool-cases, [], arith, inl, inr, lookup, none, true, ℕ, ◌&&◌, ◌+◌, ◌==◌,
  ◌↔◌, ◌∷◌, ◌≡◌, ◌≢◌, ◌⊎◌,
}
use vector_guard.Tui.{ProcessNode}
use vector_guard.Tui.ProcessTree.{Nodes, has, pids_where, is_child, is_root, children, roots}
use vector_guard.Tui.ProcessTree.Lists.{has-sort_pids}

-- A process without a known parent, and a child of another process.
abbrev pub IsTop : Nodes → ℕ → Type 0
IsTop m p = Any (λ e. (e.1.pid ≡ p) × ((e.1.ppid ≡ 0) ⊎ (lookup ◌==◌ e.1.ppid m ≡ none))) m

abbrev pub IsChild : Nodes → ℕ → ℕ → Type 0
IsChild m p c = Any (λ e. (e.1.pid ≡ c) × (e.1.ppid ≡ p) × (p ≢ c)) m

-- The processes below the top at each depth.
pub data Descends (m : Nodes) : ℕ → ℕ → Type 0 where
  top : {p : ℕ} → IsTop m p → Descends m 0 p
  child : {d p c : ℕ} → Descends m d p → IsChild m p c → Descends m (d + 1) c

-- Every node stands under its own pid.
abbrev pub IsKeyed : Nodes → Type 0
IsKeyed m = All (λ e. e.1.pid ≡ e.0) m

has-pids_where :
    (test : ProcessNode → Bool) (m : Nodes) (x : ℕ)
    → (has x (pids_where test m) ≡ true) ↔ Any (λ e. (test e.1 ≡ true) × (e.1.pid ≡ x)) m
has-pids_where test m x = (there m, back m)
  where
    there :
        (l : Nodes)
        → has x (pids_where test l) ≡ true
        → Any (λ e. (test e.1 ≡ true) × (e.1.pid ≡ x)) l
    there [] h = cc
    there ((k, n) ∷ l) h = elim (Bool-cases (test n && n.pid == x)) [
      | inl e ↦ inl (ground arith)
      | inr e ↦ inr (there l (ground arith))
    ]

    back :
        (l : Nodes)
        → Any (λ e. (test e.1 ≡ true) × (e.1.pid ≡ x)) l
        → has x (pids_where test l) ≡ true
    back [] h = absurd h
    back ((k, n) ∷ l) (inl h) = ground arith
    back ((k, n) ∷ l) (inr h) = ground (arith, back l h)

pub has-roots : (m : Nodes) (p : ℕ) → (has p (roots m) ≡ true) ↔ IsTop m p
unfolding roots
has-roots m p = (
  λ h.
      Any-mono (λ e i. ground arith) m ((has-pids_where (is_root m) m p).0 (rw has-sort_pids at h)),
  λ h. rw has-sort_pids ((has-pids_where (is_root m) m p).1 (Any-mono (λ e i. ground arith) m h)),
)

pub has-children : (m : Nodes) (p c : ℕ) → (has c (children m p) ≡ true) ↔ IsChild m p c
unfolding children
has-children m p c = (
  λ h.
      Any-mono (λ e i. ground arith) m
        ((has-pids_where (is_child m p) m c).0 (rw has-sort_pids at h)),
  λ h.
      rw has-sort_pids ((has-pids_where (is_child m p) m c).1 (Any-mono (λ e i. ground arith) m h)),
)
