-- ===== src/Collector/Parsing.antt =====
-- What the collector tells of a record that the programs of vectorguard-ebpf/src/main.rs wrote.
use vector_guard.Prelude.{
  All, List, Option, Text, [], ap, append_assoc, arith, drop, from_utf8-utf8, is_scalar, length,
  map_opt, min, none, refl, replicate, some, suc, sym, take_all, true, unwrap_or, utf8, ℕ, ◌%◌,
  ◌++◌, ◌-◌, ◌<◌, ◌↔◌, ◌∙◌, ◌∷◌, ◌≡◌, ◌≢◌, ◌≤◌,
}
use vector_guard.Common.{RawEvent, until_zero, str_or_invalid, comm_str}
use vector_guard.Kernel.{Lists, Call, get_comm, fill_comm, handle_exec, handle_file_open}
use vector_guard.Collector.{parse_raw_event, file_flags, file_path}
use vector_guard.Enforcer.{comm_key}
use vector_guard.Enforcer.Keys.{length-comm_key}

-- The text up to a zero byte, whatever follows it.
until_zero-append :
    (bytes rest : List ℕ) → All (λ b. b ≢ 0) bytes → until_zero (bytes ++ 0 ∷ rest) ≡ bytes
unfolding until_zero
until_zero-append [] rest h = refl
until_zero-append (b ∷ bytes) rest h = ground (arith, until_zero-append bytes rest h.1)

-- A name that fits into a command name: Unicode text with no zero byte, fifteen bytes at most.
abbrev pub FitsComm : Text → Type 0
FitsComm name =
    All (λ c. is_scalar c ≡ true) name × All (λ b. b ≢ 0) (utf8 name) × (length (utf8 name) ≤ 15)

comm_key-short :
    (name : Text)
    → length (utf8 name) ≤ 15
    → (pad : List ℕ) × (comm_key name ≡ utf8 name ++ 0 ∷ pad)
unfolding comm_key
comm_key-short name h = (
  replicate (15 - length (utf8 name)) 0,
  rw (len, take_all (length (utf8 name)) (utf8 name) (omega arith), zeros) refl,
)
  where
    len : min (length (utf8 name)) 16 ≡ length (utf8 name)
    len = omega arith

    zeros : 16 - length (utf8 name) ≡ suc (15 - length (utf8 name))
    zeros = omega arith

comm_str-fill :
    (name : Text) (old : List ℕ)
    → FitsComm name
    → str_or_invalid (fill_comm (comm_key name) old) ≡ name
unfolding str_or_invalid
comm_str-fill name old (scalars, nonzero, short) =
    let (pad, e) = comm_key-short name short in
    rw
      (
        take_all 16 (comm_key name) (omega (arith, length-comm_key name)),
        e,
        append_assoc (utf8 name) (0 ∷ pad) (drop 16 old),
        until_zero-append (utf8 name) (pad ++ drop 16 old) nonzero,
        from_utf8-utf8 name scalars,
      )
      refl

-- The name of a Block rule, the key that the enforcer installs for it and the binary that the
-- collector reports agree: a task whose command name is the key of a name that fits (Unicode text
-- with no zero byte, of fifteen bytes at most) is reported by its exec event with that very name,
-- whatever the memory of the ring buffer held before.
pub binary-comm_key :
    {J : Type 0} (null : J) (l : Lists) (k : Call) (id : ℕ) (name : Text) (raw : RawEvent)
    → FitsComm name
    → get_comm k ≡ comm_key name
    → (handle_exec l k).submitted ≡ some raw
    → (parse_raw_event null id raw).process.binary ≡ name
unfolding parse_raw_event handle_exec
binary-comm_key null l k id name raw fits named sub = by_slot k.slot sub
  where
    by_slot :
        (o : Option RawEvent)
        → (unfold handle_exec in (handle_exec l (record k { slot = o })).submitted) ≡ some raw
        → comm_str raw ≡ name
    by_slot none h = cc
    by_slot (some old) h =
        ap str_or_invalid (
          sym (ap (λ (x : Option RawEvent). unwrap_or (map_opt (λ r. r.comm) x) []) h)
          ∙ ap (λ n. fill_comm n old.comm) named)
        ∙ comm_str-fill name old.comm fits

-- By the access mode of an open call (O_RDONLY 0, O_WRONLY 1, O_RDWR 2), a file is reported as read
-- unless it is opened for writing only, and as written unless it is opened for reading only.
file_flags_mode :
    (flags : ℕ)
    → flags % 4 < 3
    → (((file_flags flags).read ≡ true) ↔ (flags % 4 ≢ 1))
      × (((file_flags flags).write ≡ true) ↔ (flags % 4 ≢ 0))
file_flags_mode flags h = (
  (λ e q. absurd (read_only flags e q), λ n. reads flags h n),
  (λ e q. absurd (writes_not flags e q), λ n. writes flags h n),
)
  where
    read_only : (f : ℕ) → (file_flags f).read ≡ true → f % 4 ≡ 1 → ⊥
    read_only f e q = ground arith

    reads : (f : ℕ) → f % 4 < 3 → f % 4 ≢ 1 → (file_flags f).read ≡ true
    reads f h n = ground arith

    writes_not : (f : ℕ) → (file_flags f).write ≡ true → f % 4 ≡ 0 → ⊥
    writes_not f e q = ground arith

    writes : (f : ℕ) → f % 4 < 3 → f % 4 ≢ 0 → (file_flags f).write ≡ true
    writes f h n = ground arith

-- Where neither the pointer to the file name nor the flags of an open call can be read, the event
-- reports the path that the memory of the ring buffer held before: the union is not cleared for
-- file events.
stale_path :
    (k : Call) (old raw : RawEvent)
    → k.slot ≡ some old
    → k.read_at 24 ≡ none
    → k.read_at 32 ≡ none
    → (handle_file_open k).submitted ≡ some raw
    → file_path raw.payload ≡ file_path old.payload
unfolding handle_file_open
stale_path k old raw reserved no_path no_flags sub = sym (
    ap (λ (x : Option RawEvent). file_path (unwrap_or (map_opt (λ r. r.payload) x) []))
      (rw (reserved, no_path, no_flags) at sub))
