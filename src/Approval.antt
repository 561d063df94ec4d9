-- ===== src/Approval.antt =====
-- vectorguard/src/approval.rs: proposed rules wait in one directory and move to another when they
-- are approved, where a reaper removes them when they are old. `Io` tells which calls of the file
-- system succeed; the TOML crate and the clock are arguments. Times are in nanoseconds.
pub mod Names
pub mod Store
pub mod Directories
pub mod Listing
pub mod Reaping
pub mod Reaper
use vector_guard.Prelude.{
  Bool, List, Option, Text, [], codes, drop, if◌then◌else◌, insert, is_empty, leb, lookup, map,
  none, not, remove, show_nat, some, starts_with, text_eq, ℕ, ◌&&◌, ◌++◌, ◌+◌, ◌-◌, ◌==◌, ◌||◌, ◌∷◌,
}
use vector_guard.Rules.{Rule, RuleSet}

pub record File : Type 0 where
  pub body : Text
  pub modified : ℕ

-- The files of a directory by their names, in the order in which they are listed.
abbrev pub Dir : Type 0
Dir = List (Text × File)

-- `pending_dir` and `approved_dir` of the store: `none` where the directory does not exist.
pub record Disk : Type 0 where
  pub pending : Option Dir
  pub approved : Option Dir

-- Whether a call succeeds that the state of the disk does not forbid; `entry` is the step of a listing
-- that brings a file.
pub record Io : Type 0 where
  pub create_dir : Bool
  pub read_dir : Bool
  pub entry : Text → Bool
  pub write : Text → Bool
  pub read : Text → Bool
  pub rename : Text → Bool
  pub remove_file : Text → Bool
  pub stat : Text → Bool
  pub mtime : Text → Bool

-- `is_ascii_alphanumeric`, '-' and '_'
abbrev pub is_safe : ℕ → Bool
is_safe c =
    (leb b'0' c && leb c b'9')
    || (leb b'a' c && leb c b'z')
    || (leb b'A' c && leb c b'Z')
    || c == b'-'
    || c == b'_'

-- `sanitize`
unfoldable pub sanitize : Text → Text
sanitize s =
    let cleaned = map (λ c. if is_safe c then c else b'-') s in
    if is_empty cleaned then codes "rule" else cleaned

-- `make_id`
unfoldable pub make_id : ℕ → Text → Text
make_id ts_ns rule_name = show_nat ts_ns ++ (b'-' ∷ sanitize rule_name)

abbrev pub toml_suffix : Text
toml_suffix = codes ".toml"

abbrev pub approved_prefix : Text
approved_prefix = codes "ai-approved-"

-- `format!("{}.toml", id)` and `format!("ai-approved-{}.toml", id)`
abbrev pub pending_name : Text → Text
pending_name id = id ++ toml_suffix

abbrev pub approved_name : Text → Text
approved_name id = approved_prefix ++ (id ++ toml_suffix)

-- `Path::extension` and `Path::file_stem`: the last dot, unless it is the first character.
unfoldable pub rsplit_dot : Text → Option (Text × Text)
rsplit_dot [] = none
rsplit_dot (c ∷ s) = elim (rsplit_dot s) [
  | some (stem, ext) ↦ some (c ∷ stem, ext)
  | none ↦ if c == b'.' then some ([], s) else none
]

abbrev pub ext_of : Option (Text × Text) → Option Text
ext_of none = none
ext_of (some ([], ext)) = none
ext_of (some (c ∷ stem, ext)) = some ext

abbrev pub stem_of : Text → Option (Text × Text) → Text
stem_of name none = name
stem_of name (some ([], ext)) = name
stem_of name (some (c ∷ stem, ext)) = c ∷ stem

-- `str::ends_with`
unfoldable pub ends_with : Text → Text → Bool
ends_with [] suffix = is_empty suffix
ends_with (c ∷ s) suffix = let rest = ends_with s suffix in text_eq (c ∷ s) suffix || rest

abbrev pub files_of : Option Dir → Dir
files_of none = []
files_of (some dir) = dir

-- `write_rule` into a directory: the header and the rule as TOML.
abbrev pub header : Text
header = codes "# Auto-generated by VectorGuard AI Advisor — review or remove as needed\n\n"

abbrev pub write_body : Io → ℕ → Text → Option Text → Dir → Option Dir
write_body io now name none dir = none
write_body io now name (some body) dir =
    if io.write name
    then some (insert text_eq name (record { body = header ++ body; modified = now }) dir)
    else none

abbrev pub write_rule : (RuleSet → Option Text) → Io → ℕ → Text → Rule → Dir → Option Dir
write_rule to_toml io now name rule dir =
    write_body io now name (to_toml (record { rules = rule ∷ [] })) dir

-- A step that may fail, the disk afterwards and the result.
abbrev pub Result : Type 0 → Type 0
Result A = Disk × Option A

abbrev pub with_pending : Disk → Text → Option Dir → Result Text
with_pending disk id none = (disk, none)
with_pending disk id (some dir) = (record disk { pending = some dir }, some id)

abbrev pub with_approved : Disk → Text → Option Dir → Result Text
with_approved disk id none = (disk, none)
with_approved disk id (some dir) = (record disk { approved = some dir }, some id)

-- `ApprovalStore::stage_pending`; `now` is what the clock shows for the id, and `written` the time that
-- the file system gives the file.
unfoldable pub stage_pending : (RuleSet → Option Text) → Io → ℕ → ℕ → Disk → Rule → Result Text
stage_pending to_toml io now written disk rule =
    if not io.create_dir
    then (disk, none)
    else let created = record disk { pending = some (files_of disk.pending) } in
      let id = make_id now rule.name in
      with_pending created id
        (write_rule to_toml io written (pending_name id) rule (files_of disk.pending))

-- `ApprovalStore::stage_auto`
unfoldable pub stage_auto : (RuleSet → Option Text) → Io → ℕ → ℕ → Disk → Rule → Result Text
stage_auto to_toml io now written disk rule =
    if not io.create_dir
    then (disk, none)
    else let created = record disk { approved = some (files_of disk.approved) } in
      let id = make_id now rule.name in
      with_approved created id
        (write_rule to_toml io written (approved_name id) rule (files_of disk.approved))

-- `ApprovalStore::approve`: the rename replaces a file of the same name, and keeps the time of the
-- last change.
abbrev pub move_file : Io → Text → Disk → Option File → Result Text
move_file io id disk none = (disk, none)
move_file io id disk (some file) =
    if not io.create_dir
    then (disk, none)
    else let created = record disk { approved = some (files_of disk.approved) } in
      if not (io.rename (pending_name id)) then (created, none) else (
        record {
          pending = some (remove text_eq (pending_name id) (files_of disk.pending));
          approved = some (insert text_eq (approved_name id) file (files_of disk.approved));
        },
        some (approved_name id),
      )

unfoldable pub approve : Io → Disk → Text → Result Text
approve io disk id = move_file io id disk (lookup text_eq (pending_name id) (files_of disk.pending))

-- `ApprovalStore::reject`
abbrev pub discard : Io → Text → Disk → Option File → Result Text
discard io id disk none = (disk, none)
discard io id disk (some file) =
    if io.remove_file (pending_name id)
    then (
      record disk { pending = some (remove text_eq (pending_name id) (files_of disk.pending)) },
      some id,
    )
    else (disk, none)

unfoldable pub reject : Io → Disk → Text → Result Text
reject io disk id = discard io id disk (lookup text_eq (pending_name id) (files_of disk.pending))

-- The test on a name, and on the age of a file: `duration_since` fails on a time in the future.
abbrev pub is_approved : Text → Bool
is_approved name = starts_with name approved_prefix && ends_with name toml_suffix

abbrev pub expired : ℕ → ℕ → File → Bool
expired now ttl file = leb file.modified now && leb ttl (now - file.modified)

-- The loop of `reap_expired` over the listed files: the directory and the count so far.
unfoldable pub reap_loop : Io → ℕ → ℕ → Dir → Dir → ℕ → Dir × Option ℕ
reap_loop io now ttl [] dir count = (dir, some count)
reap_loop io now ttl ((name, file) ∷ entries) dir count =
    let skip = reap_loop io now ttl entries dir count in
    let drop = reap_loop io now ttl entries (remove text_eq name dir) (count + 1) in
    if not (io.entry name)
    then (dir, none)
    else if not (is_approved name)
    then skip
    else if not (io.stat name)
    then (dir, none)
    else if not (io.mtime name)
    then skip
    else if not (expired now ttl file)
    then skip
    else if not (io.remove_file name)
    then skip
    else drop

abbrev pub with_reaped : Disk → Dir × Option ℕ → Result ℕ
with_reaped disk (dir, count) = (record disk { approved = some dir }, count)

abbrev pub reap_dir : Io → ℕ → ℕ → Disk → Option Dir → Result ℕ
reap_dir io now ttl disk none = (disk, some 0)
reap_dir io now ttl disk (some dir) =
    if not io.read_dir then (disk, none) else with_reaped disk (reap_loop io now ttl dir dir 0)

-- `ApprovalStore::reap_expired`
unfoldable pub reap_expired : Io → ℕ → ℕ → Disk → Result ℕ
reap_expired io now ttl disk = reap_dir io now ttl disk disk.approved
