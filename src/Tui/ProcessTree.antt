-- ===== src/Tui/ProcessTree.antt =====
-- `process_tree_rows` of vectorguard/src/tui/app.rs: the processes in the order of a depth-first walk
-- over the parents' pids. The set of visited pids is a list; the walk runs on fuel.
pub mod Lists
pub mod Walks
pub mod Total
pub mod Rows
pub mod Shown
pub mod Keyed
use vector_guard.Prelude.{
  Bool, List, Option, [], false, if◌then◌else◌, is_some, leb, length, lookup, map_opt, none, not,
  some, suc, zero, ℕ, ◌&&◌, ◌++◌, ◌+◌, ◌==◌, ◌||◌, ◌∷◌,
}
use vector_guard.Tui.{ProcessNode}

abbrev pub Nodes : Type 0
Nodes = List (ℕ × ProcessNode)

-- `HashSet::contains`
abbrev pub has : ℕ → List ℕ → Bool
has p [] = false
has p (x ∷ xs) = x == p || has p xs

-- `sort` of a vector of pids.
unfoldable pub insert_pid : ℕ → List ℕ → List ℕ
insert_pid p [] = p ∷ []
insert_pid p (q ∷ qs) = let rest = insert_pid p qs in if leb p q then p ∷ q ∷ qs else q ∷ rest

unfoldable pub sort_pids : List ℕ → List ℕ
unfolding insert_pid
sort_pids [] = []
sort_pids (p ∷ ps) = insert_pid p (sort_pids ps)

-- `values().filter(test).map(|n| n.pid)`
abbrev pub pids_where : (ProcessNode → Bool) → Nodes → List ℕ
pids_where test [] = []
pids_where test ((k, n) ∷ m) = let rest = pids_where test m in if test n then n.pid ∷ rest else rest

-- The rows so far, with their depth, and the visited pids.
pub record Walk : Type 0 where
  pub result : List (ℕ × ℕ)
  pub visited : List ℕ

abbrev pub visit : ℕ → ℕ → Walk → Walk
visit depth pid w = record { result = w.result ++ (depth, pid) ∷ []; visited = pid ∷ w.visited }

-- A loop over pids whose body may run out of fuel.
abbrev pub each : (ℕ → Walk → Option Walk) → List ℕ → Walk → Option Walk
each body [] w = some w
each body (p ∷ ps) w = elim (body p w) [ none ↦ none | some v ↦ each body ps v ]

module _ (m : Nodes) where
  abbrev pub is_child : ℕ → ProcessNode → Bool
  is_child pid n = n.ppid == pid && not (n.pid == pid)

  abbrev pub is_root : ProcessNode → Bool
  is_root n = n.ppid == 0 || not (is_some (lookup ◌==◌ n.ppid m))

  unfoldable pub children : ℕ → List ℕ
  unfolding sort_pids
  children pid = sort_pids (pids_where (is_child pid) m)

  unfoldable pub roots : List ℕ
  unfolding sort_pids
  roots = sort_pids (pids_where is_root m)

  unfoldable pub dfs : ℕ → ℕ → ℕ → Walk → Option Walk
  unfolding children
  dfs zero depth pid w = none
  dfs (suc fuel) depth pid w =
      let deeper = each (dfs fuel (depth + 1)) (children pid) (visit depth pid w) in
      if has pid w.visited then some w else deeper

  unfoldable pub walk : ℕ → Option Walk
  unfolding dfs roots
  walk fuel = each (dfs fuel 0) roots (record { result = []; visited = [] })

  -- `filter_map(|(depth, pid)| map.get(&pid).map(|n| (depth, n)))`
  unfoldable pub rows_of : List (ℕ × ℕ) → List (ℕ × ProcessNode)
  rows_of [] = []
  rows_of ((depth, pid) ∷ order) =
      let rest = rows_of order in
      elim (lookup ◌==◌ pid m) [ none ↦ rest | some n ↦ (depth, n) ∷ rest ]

  -- One unit of fuel for every process and one to spare.
  unfoldable pub process_tree_rows : Option (List (ℕ × ProcessNode))
  unfolding walk rows_of
  process_tree_rows = map_opt (λ w. rows_of w.result) (walk (suc (length m)))
