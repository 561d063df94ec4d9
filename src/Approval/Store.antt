-- ===== src/Approval/Store.antt =====
-- From a proposal to an approved rule: `stage_pending`, `approve` and `reject` in a row.
use vector_guard.Prelude.{
  Bool, Option, Text, [], ap, if◌then◌else◌, insert, lookup, lookup-insert, lookup-remove, none,
  not, refl, some, subst, sym, text_eq, text_eq_iff, text_eq_refl, true, unwrap_or, when, ℕ, ◌++◌,
  ◌∙◌, ◌∷◌, ◌≡◌,
}
use vector_guard.Rules.{Rule, RuleSet}
use vector_guard.Approval.{
  Disk, File, Io, approve, approved_name, files_of, header, make_id, pending_name, stage_pending,
  with_pending, write_body,
}

pub when_not {ℓ} : {A : Type ℓ} (b : Bool) (x y : A) → b ≡ true → (if not b then x else y) ≡ y
when_not b x y h = rw h refl

module _ (to_toml : RuleSet → Option Text) (io : Io) (now written : ℕ) (disk : Disk)
    (rule : Rule) where
  abbrev id_of : Text
  id_of = make_id now rule.name

  -- The file that a staged rule becomes.
  abbrev pub staged_file : Text → File
  staged_file body = record { body = header ++ body; modified = written }

  -- The disk after a successful staging.
  abbrev pub staged_disk : Text → Disk
  staged_disk body = record disk {
    pending = some (insert text_eq (pending_name id_of) (staged_file body) (files_of disk.pending));
  }

  pub stage_pending_lem :
      (body : Text)
      → io.create_dir ≡ true
      → io.write (pending_name (make_id now rule.name)) ≡ true
      → to_toml (record { rules = rule ∷ [] }) ≡ some body
      → stage_pending to_toml io now written disk rule
        ≡ (staged_disk body, some (make_id now rule.name))
  unfolding stage_pending
  stage_pending_lem body c w t =
      when_not io.create_dir _ _ c
      ∙ ap (with_pending (record disk { pending = some (files_of disk.pending) }) id_of) (
          ap (λ o. write_body io written (pending_name id_of) o (files_of disk.pending)) t
          ∙ when (io.write (pending_name id_of)) _ _ w)

  pub staged-lookup :
      (body : Text)
      → lookup text_eq (pending_name (make_id now rule.name)) (files_of (staged_disk body).pending)
        ≡ some (staged_file body)
  staged-lookup body =
      lookup-insert text_eq text_eq_iff (pending_name id_of) (pending_name id_of) (staged_file body)
        (files_of disk.pending)
      ∙ ap
          (λ b.
            if b
            then some (staged_file body)
            else lookup text_eq (pending_name id_of) (files_of disk.pending))
          (text_eq_refl (pending_name id_of))

module _ (io : Io) (disk : Disk) (id : Text) where
  -- Approving a pending proposal puts its file, unchanged and with its old time, under the approved
  -- name, takes it out of the pending directory, and touches no other file.
  pub approve_moves :
      (file : File) (name : Text)
      → io.create_dir ≡ true
      → io.rename (pending_name id) ≡ true
      → lookup text_eq (pending_name id) (files_of disk.pending) ≡ some file
      → ((approve io disk id).1 ≡ some (approved_name id))
        × (lookup text_eq name (files_of (approve io disk id).0.approved) ≡ (
            if text_eq (approved_name id) name
            then some file
            else lookup text_eq name (files_of disk.approved)))
        × (lookup text_eq name (files_of (approve io disk id).0.pending) ≡ (
            if text_eq (pending_name id) name
            then none
            else lookup text_eq name (files_of disk.pending)))
  unfolding approve
  approve_moves file name c r there =
      rw (there, c, r)
        (
          refl,
          lookup-insert text_eq text_eq_iff (approved_name id) name file (files_of disk.approved),
          lookup-remove text_eq text_eq_iff (pending_name id) name (files_of disk.pending),
        )

-- A rule that was staged, where every call of the file system succeeds, is approved under the
-- identifier that the staging returned: its file stands in the rules directory with the rule's TOML
-- text, and nothing is left of it in the pending directory.
pub approve-stage_pending :
    (to_toml : RuleSet → Option Text) (io : Io) (now written : ℕ) (disk : Disk) (rule : Rule)
    (body id : Text)
    → io.create_dir ≡ true
    → io.write (pending_name (make_id now rule.name)) ≡ true
    → io.rename (pending_name (make_id now rule.name)) ≡ true
    → to_toml (record { rules = rule ∷ [] }) ≡ some body
    → (stage_pending to_toml io now written disk rule).1 ≡ some id
    → let after = (approve io (stage_pending to_toml io now written disk rule).0 id).0 in
      (lookup text_eq (approved_name id) (files_of after.approved)
        ≡ some (record { body = header ++ body; modified = written }))
      × (lookup text_eq (pending_name id) (files_of after.pending) ≡ none)
approve-stage_pending to_toml io now written disk rule body id c w r t done =
    let q = stage_pending_lem to_toml io now written disk rule body c w t in
    let same : make_id now rule.name ≡ id =
      ap (λ o. unwrap_or o id) (sym (ap (λ x. x.1) q) ∙ done) in
    subst (Goal (stage_pending to_toml io now written disk rule).0) same
      (subst (λ d. Goal d (make_id now rule.name)) (sym (ap (λ x. x.0) q)) moved)
  where
    Goal : Disk → Text → Type 0
    Goal d i =
        let after = (approve io d i).0 in
        (lookup text_eq (approved_name i) (files_of after.approved)
          ≡ some (record { body = header ++ body; modified = written }))
        × (lookup text_eq (pending_name i) (files_of after.pending) ≡ none)

    moved : Goal (staged_disk to_toml io now written disk rule body) (make_id now rule.name)
    moved =
        let i = make_id now rule.name in
        let d = staged_disk to_toml io now written disk rule body in
        let there = staged-lookup to_toml io now written disk rule body in
        let (_, a, _) = approve_moves io d i _ (approved_name i) c r there in
        let (_, _, p) = approve_moves io d i _ (pending_name i) c r there in
        (
          a
              ∙ ap
                  (λ b.
                    if b
                    then some (staged_file to_toml io now written disk rule body)
                    else lookup text_eq (approved_name i) (files_of d.approved))
                  (text_eq_refl (approved_name i)),
          p
              ∙ ap (λ b. if b then none else lookup text_eq (pending_name i) (files_of d.pending))
                  (text_eq_refl (pending_name i)),
        )
