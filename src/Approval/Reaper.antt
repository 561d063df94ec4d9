-- ===== src/Approval/Reaper.antt =====
-- `spawn_reaper` of vectorguard/src/approval.rs: the reaper at every tick of its timer. Times are in
-- nanoseconds.
use vector_guard.Prelude.{
  Bool, List, Option, [], false, if◌then◌else◌, max, none, not, refl, some, true, ℕ, ◌∙◌, ◌∷◌, ◌≡◌,
}
use vector_guard.Approval.{Dir, Disk, Io, reap_dir, reap_expired, reap_loop, with_reaped}

-- `interval.max(1 s)`
abbrev pub reap_period : ℕ → ℕ
reap_period interval = max interval 1_000_000_000

-- The ticks after the first, which is skipped: what the calls of the file system answer, and the time.
unfoldable pub reap_ticks : ℕ → Disk → List (Io × ℕ) → Disk
unfolding reap_expired
reap_ticks ttl disk [] = disk
reap_ticks ttl disk ((io, now) ∷ ticks) = reap_ticks ttl (reap_expired io now ttl disk).0 ticks

reap_expired-pending :
    (io : Io) (now ttl : ℕ) (disk : Disk) → (reap_expired io now ttl disk).0.pending ≡ disk.pending
unfolding reap_expired
reap_expired-pending io now ttl disk = go disk.approved
  where
    go : (o : Option Dir) → (reap_dir io now ttl disk o).0.pending ≡ disk.pending
    go none = refl
    go (some dir) = listed io.read_dir
      where
        listed :
            (b : Bool)
            → (if not b
                then (disk, none)
                else with_reaped disk (reap_loop io now ttl dir dir 0)).0.pending
              ≡ disk.pending
        listed false = refl
        listed true = refl

-- However often the reaper runs, it never touches a proposal that waits for its approval.
reap_ticks-pending :
    (ttl : ℕ) (disk : Disk) (ticks : List (Io × ℕ))
    → (reap_ticks ttl disk ticks).pending ≡ disk.pending
unfolding reap_ticks
reap_ticks-pending ttl disk [] = refl
reap_ticks-pending ttl disk ((io, now) ∷ ticks) =
    reap_ticks-pending ttl (reap_expired io now ttl disk).0 ticks
    ∙ reap_expired-pending io now ttl disk
