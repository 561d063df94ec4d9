-- ===== src/Approval/Directories.antt =====
-- What `approve` and `reject` of vectorguard/src/approval.rs do to each file of the two directories.
use vector_guard.Prelude.{
  Bool-cases, Option, Option-cases, Text, arith, if◌then◌else◌, inl, inr, is_some, lookup,
  lookup-remove, none, refl, subst, text_eq, text_eq_iff, true, ◌&&◌, ◌∙◌, ◌≡◌,
}
use vector_guard.Approval.{
  Dir, Disk, File, Io, approve, approved_name, files_of, pending_name, reject,
}
use vector_guard.Approval.Store.{approve_moves}

-- Where there is no file under a name, taking it away changes nothing.
lookup-absent :
    (k name : Text) (dir : Dir)
    → lookup text_eq k dir ≡ none
    → lookup text_eq name dir ≡ (if text_eq k name then none else lookup text_eq name dir)
lookup-absent k name dir h = elim (Bool-cases (text_eq k name)) [
  | inl e ↦ rw e (subst (λ n. lookup text_eq n dir ≡ none) ((text_eq_iff k name).0 e) h)
  | inr e ↦ rw e refl
]

module _ (io : Io) (disk : Disk) (id name : Text) where
  abbrev file_of : Option File
  file_of = lookup text_eq (pending_name id) (files_of disk.pending)

  -- The file of an approved proposal, if there is one, leaves the pending directory and stands under the
  -- approved name; all else stays.
  pub approve-lookup :
      io.create_dir ≡ true
      → io.rename (pending_name id) ≡ true
      → (lookup text_eq name (files_of (approve io disk id).0.pending) ≡ (
          if text_eq (pending_name id) name
          then none
          else lookup text_eq name (files_of disk.pending)))
        × (lookup text_eq name (files_of (approve io disk id).0.approved) ≡ (
            if text_eq (approved_name id) name && is_some file_of
            then file_of
            else lookup text_eq name (files_of disk.approved)))
  unfolding approve
  approve-lookup c r = elim (Option-cases file_of) [
    | inl e ↦ rw e (lookup-absent (pending_name id) name (files_of disk.pending) e, ground arith)
    | inr (file, e) ↦
        let (_, moved, gone) = approve_moves io disk id file name c r e in
        (gone, moved ∙ rw e (ground arith))
  ]

  -- The file of a rejected proposal is gone; all else stays.
  pub reject-lookup :
      io.remove_file (pending_name id) ≡ true
      → (lookup text_eq name (files_of (reject io disk id).0.pending) ≡ (
          if text_eq (pending_name id) name
          then none
          else lookup text_eq name (files_of disk.pending)))
        × (lookup text_eq name (files_of (reject io disk id).0.approved)
            ≡ lookup text_eq name (files_of disk.approved))
  unfolding reject
  reject-lookup r = elim (Option-cases file_of) [
    | inl e ↦ rw e (lookup-absent (pending_name id) name (files_of disk.pending) e, refl)
    | inr (file, e) ↦
        rw (e, r)
          (lookup-remove text_eq text_eq_iff (pending_name id) name (files_of disk.pending), refl)
  ]
