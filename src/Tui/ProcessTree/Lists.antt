-- ===== src/Tui/ProcessTree/Lists.antt =====
-- Membership in sorted and filtered lists of pids, and how many pids are still to be visited.
use vector_guard.Prelude.{
  Bool, List, [], ap, arith, false, if◌then◌else◌, length, refl, suc, true, ℕ, ◌<◌, ◌==◌, ◌||◌, ◌∙◌,
  ◌∷◌, ◌≡◌, ◌≤◌,
}
use vector_guard.Tui.{ProcessNode}
use vector_guard.Tui.ProcessTree.{
  Nodes, has, insert_pid, sort_pids, pids_where, children, roots, is_child, is_root,
}

has-insert_pid : (x p : ℕ) (ps : List ℕ) → has x (insert_pid p ps) ≡ (p == x || has x ps)
unfolding insert_pid
has-insert_pid x p [] = refl
has-insert_pid x p (q ∷ qs) = ground (arith, has-insert_pid x p qs)

pub has-sort_pids : (x : ℕ) (ps : List ℕ) → has x (sort_pids ps) ≡ has x ps
unfolding sort_pids
has-sort_pids x [] = refl
has-sort_pids x (p ∷ ps) =
    has-insert_pid x p (sort_pids ps) ∙ ap (λ b. p == x || b) (has-sort_pids x ps)

-- The pids of all nodes.
abbrev pub all_pids : Nodes → List ℕ
all_pids [] = []
all_pids ((k, n) ∷ m) = n.pid ∷ all_pids m

pub length-all_pids : (m : Nodes) → length (all_pids m) ≡ length m
length-all_pids [] = refl
length-all_pids (e ∷ m) = ap suc (length-all_pids m)

pub pids_where-all_pids :
    (test : ProcessNode → Bool) (m : Nodes) (x : ℕ)
    → has x (pids_where test m) ≡ true
    → has x (all_pids m) ≡ true
pids_where-all_pids test [] x h = cc
pids_where-all_pids test ((k, n) ∷ m) x h = ground (arith, pids_where-all_pids test m x)

pub children-all_pids :
    (m : Nodes) (p x : ℕ) → has x (children m p) ≡ true → has x (all_pids m) ≡ true
unfolding children
children-all_pids m p x h = pids_where-all_pids (is_child m p) m x (rw has-sort_pids at h)

pub roots-all_pids : (m : Nodes) (x : ℕ) → has x (roots m) ≡ true → has x (all_pids m) ≡ true
unfolding roots
roots-all_pids m x h = pids_where-all_pids (is_root m) m x (rw has-sort_pids at h)

-- How many of the pids are not visited.
abbrev pub unvisited : List ℕ → List ℕ → ℕ
unvisited [] v = 0
unvisited (p ∷ ps) v = if has p v then unvisited ps v else suc (unvisited ps v)

pub unvisited_start : (ps : List ℕ) → unvisited ps [] ≡ length ps
unvisited_start [] = refl
unvisited_start (p ∷ ps) = ap suc (unvisited_start ps)

pub unvisited_mono :
    (ps v w : List ℕ)
    → ((x : ℕ) → has x v ≡ true → has x w ≡ true)
    → unvisited ps w ≤ unvisited ps v
unvisited_mono [] v w h = omega arith
unvisited_mono (p ∷ ps) v w h = ground (arith, unvisited_mono ps v w h, h p)

pub unvisited_visit :
    (ps : List ℕ) (p : ℕ) (v : List ℕ)
    → has p ps ≡ true
    → has p v ≡ false
    → unvisited ps (p ∷ v) < unvisited ps v
unvisited_visit [] p v h k = cc
unvisited_visit (q ∷ ps) p v h k =
    ground (arith, unvisited_visit ps p v, unvisited_mono ps v (p ∷ v) (λ x e. ground arith))
