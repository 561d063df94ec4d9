-- ===== src/Samples/Approvals.antt =====
-- The approval store on a small disk.
use vector_guard.Prelude.{
  Any, List, Option, Text, [], ap, arith, codes, filter, if◌then◌else◌, length, lookup, none, refl,
  some, text_eq, true, ◌++◌, ◌∷◌, ◌≡◌,
}
use vector_guard.Rules.{RuleSet}
use vector_guard.Approval.{
  Dir, Disk, File, Io, approve, approved_name, files_of, header, make_id, pending_name,
  reap_expired, stage_pending,
}
use vector_guard.Approval.Store.{approve-stage_pending, stage_pending_lem}
use vector_guard.Approval.Listing.{PendingItem, list_pending}
use vector_guard.Approval.Listing.Staged.{Oldest, list_pending-stage_pending}
use vector_guard.Approval.Reaping.{Works, hits, is_gone, reap_expired-approve, reap_expired-exact}
use vector_guard.Samples.{alert_4444}

abbrev pub all_works : Io
all_works = record {
  create_dir = true;
  read_dir = true;
  entry = λ name. true;
  write = λ name. true;
  read = λ name. true;
  rename = λ name. true;
  remove_file = λ name. true;
  stat = λ name. true;
  mtime = λ name. true;
}

works : Works all_works
works = record {
  read_dir = refl;
  entry = λ name. refl;
  stat = λ name. refl;
  mtime = λ name. refl;
  remove_file = λ name. refl;
}

abbrev pub empty_disk : Disk
empty_disk = record { pending = none; approved = none }

abbrev to_toml : RuleSet → Option Text
to_toml rs = some (codes "toml")

abbrev pub parse : Text → Option RuleSet
parse content = some (record { rules = alert_4444 ∷ [] })

abbrev id : Text
id = make_id 5 alert_4444.name

staged : (stage_pending to_toml all_works 5 6 empty_disk alert_4444).1 ≡ some id
staged =
    ap (λ r. r.1)
      (stage_pending_lem to_toml all_works 5 6 empty_disk alert_4444 (codes "toml") refl refl refl)

approve-stage_pending_example :
    let after =
      (approve all_works (stage_pending to_toml all_works 5 6 empty_disk alert_4444).0 id).0 in
    (lookup text_eq (approved_name id) (files_of after.approved)
      ≡ some (record { body = header ++ codes "toml"; modified = 6 }))
    × (lookup text_eq (pending_name id) (files_of after.pending) ≡ none)
approve-stage_pending_example =
    approve-stage_pending to_toml all_works 5 6 empty_disk alert_4444 (codes "toml") id refl refl
      refl refl staged

list_pending-stage_pending_example :
    (items : List PendingItem) × (list_pending parse all_works 9
        (stage_pending to_toml all_works 5 6 empty_disk alert_4444).0
      ≡ some items)
    × Any
        (λ i. i ≡ record { id = make_id 5 alert_4444.name; rule = alert_4444; created_at = 6 })
        items
    × Oldest items
list_pending-stage_pending_example =
    list_pending-stage_pending to_toml parse all_works 5 6 9 empty_disk alert_4444 (codes "toml")
      refl refl refl refl refl refl refl

abbrev proposal : File
proposal = record { body = codes "toml"; modified = 5 }

abbrev one_waits : Disk
one_waits = record {
  pending = some ((pending_name (codes "7-x"), proposal) ∷ []);
  approved = some [];
}

waits : lookup text_eq (pending_name (codes "7-x")) (files_of one_waits.pending) ≡ some proposal
unfolding lookup text_eq
waits = refl

reap_expired-approve_example :
    ((approve all_works one_waits (codes "7-x")).1 ≡ some (approved_name (codes "7-x")))
    × (lookup text_eq (approved_name (codes "7-x")) (
          files_of
            (reap_expired all_works 700 600
              (approve all_works one_waits (codes "7-x")).0).0.approved)
        ≡ none)
reap_expired-approve_example =
    reap_expired-approve all_works works one_waits (codes "7-x") proposal 700 600 refl refl waits
      (omega arith)

abbrev old_rule : Dir
old_rule = (approved_name (codes "7-x"), proposal) ∷ (codes "default.toml", proposal) ∷ []

reap_expired-exact_example :
    (lookup text_eq (codes "default.toml") (
        files_of
          (reap_expired all_works 700 600
            (record { pending = none; approved = some old_rule })).0.approved)
      ≡ (if hits all_works works 700 600 (codes "default.toml") old_rule
          then none
          else lookup text_eq (codes "default.toml") old_rule))
    × ((reap_expired all_works 700 600 (record { pending = none; approved = some old_rule })).1
        ≡ some (length (filter (is_gone 700 600) old_rule)))
reap_expired-exact_example =
    reap_expired-exact all_works works 700 600 (record { pending = none; approved = some old_rule })
      old_rule (codes "default.toml") refl
