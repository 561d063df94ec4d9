-- ===== src/Approval/Reaping.antt =====
-- What the reaper of vectorguard/src/approval.rs removes.
use vector_guard.Prelude.{
  Bool, Bool-cases, Option, Text, [], any, ap, arith, false, filter, if◌then◌else◌, inl, inr,
  length, lookup, lookup-remove, none, refl, remove, some, subst, sym, text_eq, text_eq_iff,
  text_eq_refl, true, unwrap_or, ℕ, ◌&&◌, ◌+◌, ◌||◌, ◌∙◌, ◌∷◌, ◌≡◌, ◌≢◌, ◌≤◌,
}
use vector_guard.Approval.{
  Dir, Disk, File, Io, approve, approved_name, expired, files_of, is_approved, pending_name,
  reap_dir, reap_expired, reap_loop, with_reaped,
}
use vector_guard.Approval.Names.{is_approved-approved_name}
use vector_guard.Approval.Store.{approve_moves, when_not}

-- An approved file that is old enough.
abbrev pub is_gone : ℕ → ℕ → Text × File → Bool
is_gone now ttl (name, file) = is_approved name && expired now ttl file

-- The calls on listed files succeed.
pub record Works (io : Io) : Type 0 where
  pub read_dir : io.read_dir ≡ true
  pub entry : (name : Text) → io.entry name ≡ true
  pub stat : (name : Text) → io.stat name ≡ true
  pub mtime : (name : Text) → io.mtime name ≡ true
  pub remove_file : (name : Text) → io.remove_file name ≡ true

module _ (io : Io) (works : Works io) (now ttl : ℕ) where
  abbrev pub hits : Text → Dir → Bool
  hits name entries = any (λ e. text_eq e.0 name && is_gone now ttl e) entries

  -- One step of the loop.
  loop-keep :
      (name : Text) (file : File) (entries dir : Dir) (count : ℕ)
      → is_gone now ttl (name, file) ≡ false
      → reap_loop io now ttl ((name, file) ∷ entries) dir count
        ≡ reap_loop io now ttl entries dir count
  unfolding reap_loop
  loop-keep name file entries dir count h = elim (Bool-cases (is_approved name)) [
    | inl a ↦
        let young : expired now ttl file ≡ false = ground arith in
        rw (works.entry name, a, works.stat name, works.mtime name, young) refl
    | inr a ↦ rw (works.entry name, a) refl
  ]

  loop-drop :
      (name : Text) (file : File) (entries dir : Dir) (count : ℕ)
      → is_gone now ttl (name, file) ≡ true
      → reap_loop io now ttl ((name, file) ∷ entries) dir count
        ≡ reap_loop io now ttl entries (remove text_eq name dir) (count + 1)
  unfolding reap_loop
  loop-drop name file entries dir count h =
      let a : is_approved name ≡ true = ground arith in
      let old : expired now ttl file ≡ true = ground arith in
      rw (works.entry name, a, works.stat name, works.mtime name, old, works.remove_file name) refl

  loop-lookup :
      (n : Text) (entries dir : Dir) (count : ℕ)
      → lookup text_eq n (reap_loop io now ttl entries dir count).0
        ≡ (if hits n entries then none else lookup text_eq n dir)
  loop-lookup n [] dir count = unfold reap_loop in refl
  loop-lookup n ((name, file) ∷ entries) dir count =
      elim (Bool-cases (is_gone now ttl (name, file))) [
        | inl e ↦
            ap (λ r. lookup text_eq n r.0) (loop-drop name file entries dir count e)
            ∙ loop-lookup n entries (remove text_eq name dir) (count + 1)
            ∙ ap (λ l. if hits n entries then none else l)
                (lookup-remove text_eq text_eq_iff name n dir)
            ∙ dropped (text_eq name n) (is_gone now ttl (name, file)) (hits n entries) _ e
        | inr e ↦
            ap (λ r. lookup text_eq n r.0) (loop-keep name file entries dir count e)
            ∙ loop-lookup n entries dir count
            ∙ kept (text_eq name n) (is_gone now ttl (name, file)) (hits n entries) _ e
      ]
    where
      dropped :
          (a b c : Bool) (l : Option File)
          → b ≡ true
          → (if c then none else if a then none else l) ≡ (if (a && b) || c then none else l)
      dropped a b c l h = ground arith

      kept :
          (a b c : Bool) (l : Option File)
          → b ≡ false
          → (if c then none else l) ≡ (if (a && b) || c then none else l)
      kept a b c l h = ground arith

  loop-count :
      (entries dir : Dir) (count : ℕ)
      → (reap_loop io now ttl entries dir count).1
        ≡ some (count + length (filter (is_gone now ttl) entries))
  loop-count [] dir count = unfold reap_loop in ap some (omega arith)
  loop-count ((name, file) ∷ entries) dir count = elim (Bool-cases (is_gone now ttl (name, file))) [
    | inl e ↦ rw e (
        ap (λ r. r.1) (loop-drop name file entries dir count e)
        ∙ loop-count entries (remove text_eq name dir) (count + 1)
        ∙ ap some (omega arith))
    | inr e ↦
        rw e
          (ap (λ r. r.1) (loop-keep name file entries dir count e) ∙ loop-count entries dir count)
  ]

  -- Where the calls on the files succeed, the reaper removes exactly the files of the approved
  -- directory that are named ai-approved-*.toml and have not changed for the time given, leaves every
  -- other file, and returns their number.
  pub reap_expired-exact :
      (disk : Disk) (dir : Dir) (name : Text)
      → disk.approved ≡ some dir
      → (lookup text_eq name (files_of (reap_expired io now ttl disk).0.approved)
          ≡ (if hits name dir then none else lookup text_eq name dir))
        × ((reap_expired io now ttl disk).1 ≡ some (length (filter (is_gone now ttl) dir)))
  unfolding reap_expired
  reap_expired-exact disk dir name h =
      let e : reap_expired io now ttl disk ≡ with_reaped disk (reap_loop io now ttl dir dir 0) =
        ap (reap_dir io now ttl disk) h ∙ when_not io.read_dir _ _ works.read_dir in
      (
        ap (λ r. lookup text_eq name (files_of r.0.approved)) e ∙ loop-lookup name dir dir 0,
        ap (λ r. r.1) e ∙ loop-count dir dir 0 ∙ ap some (omega arith),
      )

nothing-found : (name : Text) (f : File) → lookup text_eq name [] ≢ some f
unfolding lookup
nothing-found name f h = cc

module _ (io : Io) (works : Works io) (disk : Disk) (id : Text) (file : File) where
  found→hit :
      (now ttl : ℕ) (name : Text) (f : File) (dir : Dir)
      → lookup text_eq name dir ≡ some f
      → is_gone now ttl (name, f) ≡ true
      → hits io works now ttl name dir ≡ true
  unfolding lookup
  found→hit now ttl name f [] l g = cc
  found→hit now ttl name f ((m, h) ∷ dir) l g = elim (Bool-cases (text_eq m name)) [
    | inl e ↦
        let same : name ≡ m = sym ((text_eq_iff m name).0 e) in
        let file_same : f ≡ h = sym (
          ap (λ o. unwrap_or o h)
            (sym (ap (λ b. if b then some h else lookup text_eq name dir) e) ∙ l)) in
        let gone : is_gone now ttl (m, h) ≡ true =
          subst (λ x. is_gone now ttl (m, x) ≡ true) file_same
            (subst (λ n. is_gone now ttl (n, f) ≡ true) same g) in
        rw (e, gone) refl
    | inr e ↦ rw e (
        found→hit now ttl name f dir
          (sym (ap (λ b. if b then some h else lookup text_eq name dir) e) ∙ l) g)
  ]

  -- The time to live of an approved rule runs from its proposal, not from its approval: where the
  -- calls of the file system succeed, a rule that waited for its approval longer than that is
  -- approved, and is removed by the first reaping after it.
  pub reap_expired-approve :
      (now ttl : ℕ)
      → io.create_dir ≡ true
      → io.rename (pending_name id) ≡ true
      → lookup text_eq (pending_name id) (files_of disk.pending) ≡ some file
      → file.modified + ttl ≤ now
      → ((approve io disk id).1 ≡ some (approved_name id))
        × (lookup text_eq
              (approved_name id)
              (files_of (reap_expired io now ttl (approve io disk id).0).0.approved)
            ≡ none)
  reap_expired-approve now ttl c r there late =
      let (done, moved, _) = approve_moves io disk id file (approved_name id) c r there in
      let found =
        moved
        ∙ ap
            (λ b.
              if b then some file else lookup text_eq (approved_name id) (files_of disk.approved))
            (text_eq_refl (approved_name id)) in
      let old : expired now ttl file ≡ true = ground arith in
      let gone : is_gone now ttl (approved_name id, file) ≡ true =
        rw (is_approved-approved_name id, old) refl in
      (done, by_dir now ttl (approve io disk id).0.approved refl found gone)
    where
      by_dir :
          (now ttl : ℕ) (o : Option Dir)
          → (approve io disk id).0.approved ≡ o
          → lookup text_eq (approved_name id) (files_of (approve io disk id).0.approved) ≡ some file
          → is_gone now ttl (approved_name id, file) ≡ true
          → lookup text_eq
              (approved_name id)
              (files_of (reap_expired io now ttl (approve io disk id).0).0.approved)
            ≡ none
      by_dir now ttl none e found gone = absurd (
          nothing-found (approved_name id) file
            (sym (ap (λ o. lookup text_eq (approved_name id) (files_of o)) e) ∙ found))
      by_dir now ttl (some dir) e found gone =
          (reap_expired-exact io works now ttl (approve io disk id).0 dir (approved_name id) e).0
          ∙ ap (λ b. if b then none else lookup text_eq (approved_name id) dir)
              (found→hit now ttl (approved_name id) file dir
                (sym (ap (λ o. lookup text_eq (approved_name id) (files_of o)) e) ∙ found) gone)
