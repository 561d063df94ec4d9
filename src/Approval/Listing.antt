-- ===== src/Approval/Listing.antt =====
-- `ApprovalStore::list_pending` of vectorguard/src/approval.rs. `parse` is `toml::from_str::<RuleSet>`.
pub mod Staged
use vector_guard.Prelude.{
  Bool, List, Option, Text, [], codes, false, if◌then◌else◌, leb, none, not, some, text_eq, ℕ, ◌∷◌,
}
use vector_guard.Rules.{Rule, RuleSet}
use vector_guard.Approval.{
  Dir, Disk, File, Io, ext_of, files_of, header, make_id, pending_name, rsplit_dot, stage_pending,
  stem_of,
}
use vector_guard.Approval.Names.{make_id_nonempty, pending_name-parts}
use vector_guard.Approval.Store.{
  stage_pending_lem, staged_file, when_not, staged_disk, staged-lookup,
}

pub record PendingItem : Type 0 where
  pub id : Text
  pub rule : Rule
  pub created_at : ℕ

abbrev pub is_toml : Option Text → Bool
is_toml none = false
is_toml (some ext) = text_eq ext (codes "toml")

abbrev pub first_rule : Option RuleSet → Option Rule
first_rule none = none
first_rule (some rs) = elim rs.rules [ [] ↦ none | rule ∷ rest ↦ some rule ]

abbrev pub item_of : Text → ℕ → Option Rule → Option PendingItem
item_of id created_at none = none
item_of id created_at (some rule) = some (record { id = id; rule = rule; created_at = created_at })

-- `items.sort_by_key(created_at)`, a stable sort.
unfoldable pub insert_item : PendingItem → List PendingItem → List PendingItem
insert_item i [] = i ∷ []
insert_item i (j ∷ js) =
    let rest = insert_item i js in if leb i.created_at j.created_at then i ∷ j ∷ js else j ∷ rest

unfoldable pub sort_items : List PendingItem → List PendingItem
unfolding insert_item
sort_items [] = []
sort_items (i ∷ is) = insert_item i (sort_items is)

module _ (parse : Text → Option RuleSet) (io : Io) (now : ℕ) where
  -- One entry: malformed and unreadable files are skipped. Where the time of the last change cannot
  -- be read, it is taken to be now.
  unfoldable pub read_item : Text × File → Option PendingItem
  read_item (name, file) =
      let parts = rsplit_dot name in
      if not (is_toml (ext_of parts))
      then none
      else if not (io.read name)
      then none
      else item_of (stem_of name parts) (if io.mtime name then file.modified else now)
          (first_rule (parse file.body))

  unfoldable pub read_items : Dir → List PendingItem
  unfolding read_item
  read_items [] = []
  read_items (entry ∷ dir) =
      let rest = read_items dir in elim (read_item entry) [ none ↦ rest | some item ↦ item ∷ rest ]

  -- `read_dir` stands for the entries too: one that fails ends the listing with nothing changed.
  abbrev pub list_dir : Option Dir → Option (List PendingItem)
  list_dir none = some []
  list_dir (some dir) = if not io.read_dir then none else some (sort_items (read_items dir))

  unfoldable pub list_pending : Disk → Option (List PendingItem)
  unfolding sort_items read_items
  list_pending disk = list_dir disk.pending
