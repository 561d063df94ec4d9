-- ===== src/Tui/ProcessTree/Total.antt =====
-- The walk over the process tree ends.
use vector_guard.Prelude.{[], arith, length, some, ℕ, ◌<◌, ◌≡◌}
use vector_guard.Tui.ProcessTree.{Nodes, Walk, dfs, roots, walk}
use vector_guard.Tui.ProcessTree.Lists.{length-all_pids, roots-all_pids, all_pids, unvisited_start}
use vector_guard.Tui.ProcessTree.Walks.{IsGrown, each_grows, dfs_grows}

abbrev pub start : Walk
start = record { result = []; visited = [] }

pub walk_grows :
    (m : Nodes) (fuel : ℕ)
    → length m < fuel
    → (w : Walk) × (walk m fuel ≡ some w) × IsGrown m (roots m) start w
unfolding walk
walk_grows m fuel h =
    each_grows m fuel (dfs m fuel 0) (λ p w. dfs_grows m fuel 0 p w) (roots m) start
      (roots-all_pids m) (omega (arith, unvisited_start (all_pids m), length-all_pids m))

-- The walk over the process tree ends for every map of processes, cycles among the parents included:
-- with more fuel than there are processes it never runs out.
walk_total : (m : Nodes) (fuel : ℕ) → length m < fuel → (w : Walk) × (walk m fuel ≡ some w)
walk_total m fuel h = let (w, e, g) = walk_grows m fuel h in (w, e)
