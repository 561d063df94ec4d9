-- ===== src/SlowPath/Context.antt =====
-- vectorguard/src/slow_path/context.rs: the recent vectors of each process.
pub mod Window
pub mod Stale
pub mod Vectors
use vector_guard.Prelude.{
  List, Option, [], filter, foldl, if◌then◌else◌, insert, is_empty, length, lookup, ltb, map, none,
  not, replicate, some, unwrap_or, ℕ, ◌%◌, ◌*◌, ◌++◌, ◌+◌, ◌-◌, ◌==◌, ◌^◌, ◌∷◌,
}
use vector_guard.Float.{Float}

-- `MAX_PER_PID`
abbrev pub max_per_pid : ℕ
max_per_pid = 32

module _ (f : Float) where
  abbrev pub Vector : Type 0
  Vector = List f.F

  -- The ring of one process, oldest entry first.
  abbrev pub Ring : Type 0
  Ring = List (ℕ × Vector)

  pub record ContextWindow : Type 0 where
    pub store : List (ℕ × Ring)
    pub window_ns : ℕ
    pub vector_dim : ℕ

  -- `ContextWindow::new`; the product wraps at 64 bits.
  abbrev pub new : ℕ → ℕ → ContextWindow
  new window_secs vector_dim = record {
    store = [];
    window_ns = window_secs * 1_000_000_000 % 2 ^ 64;
    vector_dim = vector_dim;
  }

  -- `while front.ts < cutoff { pop_front }`
  unfoldable pub prune_old : ℕ → Ring → Ring
  prune_old cutoff [] = []
  prune_old cutoff ((ts, v) ∷ ring) =
      let rest = prune_old cutoff ring in if ltb ts cutoff then rest else (ts, v) ∷ ring

  -- `while len > MAX_PER_PID { pop_front }`
  unfoldable pub cap_ring : Ring → Ring
  cap_ring [] = []
  cap_ring (x ∷ ring) =
      let rest = cap_ring ring in if ltb max_per_pid (length (x ∷ ring)) then rest else x ∷ ring

  -- One push into a ring; the subtraction saturates at zero.
  unfoldable pub push_ring : ℕ → ℕ → Vector → Ring → Ring
  unfolding prune_old cap_ring
  push_ring window_ns timestamp v ring =
      cap_ring (prune_old (timestamp - window_ns) (ring ++ (timestamp, v) ∷ []))

  abbrev pub ring_of : List (ℕ × Ring) → ℕ → Ring
  ring_of store pid = unwrap_or (lookup ◌==◌ pid store) []

  -- `ContextWindow::push`
  unfoldable pub push : ContextWindow → ℕ → ℕ → Vector → ContextWindow
  push w pid timestamp v = record w {
    store = insert ◌==◌ pid (push_ring w.window_ns timestamp v (ring_of w.store pid)) w.store;
  }

  -- `ContextWindow::prune_stale_pids`
  unfoldable pub prune_stale_pids : ContextWindow → ContextWindow
  prune_stale_pids w = record w { store = filter (λ (pid, ring). not (is_empty ring)) w.store }

  -- `r += weight * v` over the common length.
  unfoldable pub add_weighted : f.F → Vector → Vector → Vector
  add_weighted weight [] vec = []
  add_weighted weight (r ∷ rs) [] = r ∷ rs
  add_weighted weight (r ∷ rs) (v ∷ vs) = f.add r (f.mul weight v) ∷ add_weighted weight rs vs

  -- The loop over the ring: the index of the entry, the sum and the weight so far.
  unfoldable pub accumulate : f.F → ℕ → Ring → Vector → f.F → Vector × f.F
  accumulate n i [] result total = (result, total)
  accumulate n i ((ts, vec) ∷ ring) result total =
      let weight = f.div (f.add (f.of_ℕ i) f.one) n in
      accumulate n (i + 1) ring (add_weighted weight result vec) (f.add total weight)

  -- `if d > 1e-9 { x /= d }` on every component.
  abbrev pub div_all : f.F → Vector → Vector
  div_all d v = if f.lt f.tiny d then map (λ x. f.div x d) v else v

  abbrev pub sum_squares : Vector → f.F
  sum_squares v = foldl (λ acc x. f.add acc (f.mul x x)) f.zero_f v

  abbrev pub norm : Vector → f.F
  norm v = f.sqrt (sum_squares v)

  abbrev pub averaged : Vector × f.F → Vector
  averaged (result, total) = let mean = div_all total result in div_all (norm mean) mean

  abbrev pub vector_of : ℕ → Ring → Option Vector
  vector_of dim [] = none
  vector_of dim (e ∷ ring) = some (
      averaged
        (accumulate (f.of_ℕ (length (e ∷ ring))) 0 (e ∷ ring) (replicate dim f.zero_f) f.zero_f))

  -- `ContextWindow::context_vector`
  unfoldable pub context_vector : ContextWindow → ℕ → Option Vector
  unfolding accumulate add_weighted
  context_vector w pid = vector_of w.vector_dim (ring_of w.store pid)
