-- ===== src/Approval/Listing/Staged.antt =====
-- What `list_pending` of vectorguard/src/approval.rs lists, and in which order.
use vector_guard.Prelude.{
  All, Any, Any-mono, Bool-cases, List, Option, Text, [], ap, arith, codes, if◌then◌else◌, inl, inr,
  leb, lookup, none, some, sym, text_eq, text_eq_iff, text_eq_refl, true, unwrap_or, ℕ, ◌++◌, ◌∙◌,
  ◌∷◌, ◌≡◌, ◌≤◌, ◌⊎◌,
}
use vector_guard.Rules.{Rule, RuleSet}
use vector_guard.Approval.{
  Dir, Disk, File, Io, ext_of, files_of, header, make_id, pending_name, rsplit_dot, stage_pending,
  stem_of,
}
use vector_guard.Approval.Names.{make_id_nonempty, pending_name-parts}
use vector_guard.Approval.Store.{
  stage_pending_lem, staged_file, when_not, staged_disk, staged-lookup,
}
use vector_guard.Approval.Listing.{
  PendingItem, first_rule, insert_item, is_toml, item_of, list_pending, read_item, read_items,
  sort_items,
}

-- Oldest first.
abbrev pub Oldest : List PendingItem → Type 0
Oldest [] = Unit
Oldest (i ∷ is) = All (λ j. i.created_at ≤ j.created_at) is × Oldest is

All-weaken :
    (a b : ℕ) (is : List PendingItem)
    → a ≤ b
    → All (λ j. b ≤ j.created_at) is
    → All (λ j. a ≤ j.created_at) is
All-weaken a b [] h k = tt
All-weaken a b (i ∷ is) h k = (let q = k.0 in omega arith, All-weaken a b is h k.1)

All-insert_item :
    (P : PendingItem → Type 0) (i : PendingItem) (is : List PendingItem)
    → P i
    → All P is
    → All P (insert_item i is)
unfolding insert_item
All-insert_item P i [] p h = (p, tt)
All-insert_item P i (j ∷ js) p h = elim (Bool-cases (leb i.created_at j.created_at)) [
  | inl e ↦ rw e (p, h)
  | inr e ↦ rw e (h.0, All-insert_item P i js p h.1)
]

insert_item-Oldest :
    (i : PendingItem) (is : List PendingItem) → Oldest is → Oldest (insert_item i is)
unfolding insert_item
insert_item-Oldest i [] h = (tt, tt)
insert_item-Oldest i (j ∷ js) h = elim (Bool-cases (leb i.created_at j.created_at)) [
  | inl e ↦ rw e ((ground arith, All-weaken i.created_at j.created_at js (ground arith) h.0), h)
  | inr e ↦ rw e (
    All-insert_item (λ k. j.created_at ≤ k.created_at) i js (ground arith) h.0,
    insert_item-Oldest i js h.1,
  )
]

sort_items-Oldest : (is : List PendingItem) → Oldest (sort_items is)
unfolding sort_items
sort_items-Oldest [] = tt
sort_items-Oldest (i ∷ is) = insert_item-Oldest i (sort_items is) (sort_items-Oldest is)

Any-insert_item :
    (P : PendingItem → Type 0) (i : PendingItem) (is : List PendingItem)
    → P i ⊎ Any P is
    → Any P (insert_item i is)
unfolding insert_item
Any-insert_item P i [] s = s
Any-insert_item P i (j ∷ js) s = elim (Bool-cases (leb i.created_at j.created_at)) [
  | inl e ↦ rw e s
  | inr e ↦ rw e (elim s [
    | inl p ↦ inr (Any-insert_item P i js (inl p))
    | inr (inl p) ↦ inl p
    | inr (inr a) ↦ inr (Any-insert_item P i js (inr a))
  ])
]

Any-sort_items :
    (P : PendingItem → Type 0) (is : List PendingItem) → Any P is → Any P (sort_items is)
unfolding sort_items
Any-sort_items P [] h = absurd h
Any-sort_items P (i ∷ is) (inl p) = Any-insert_item P i (sort_items is) (inl p)
Any-sort_items P (i ∷ is) (inr h) =
    Any-insert_item P i (sort_items is) (inr (Any-sort_items P is h))

module _ (parse : Text → Option RuleSet) (io : Io) (now : ℕ) where
  item_found :
      (item : PendingItem) (dir : Dir) (o : Option PendingItem)
      → o ≡ some item
      → Any
          (λ i. i ≡ item)
          (elim o as (λ _. List PendingItem) [
            | none ↦ read_items parse io now dir
            | some j ↦ j ∷ read_items parse io now dir
          ])
  item_found item dir none q = cc
  item_found item dir (some j) q = inl (ap (λ o. unwrap_or o j) q)

  Any-read_items :
      (item : PendingItem) (dir : Dir)
      → Any (λ e. read_item parse io now e ≡ some item) dir
      → Any (λ i. i ≡ item) (read_items parse io now dir)
  unfolding read_items
  Any-read_items item [] h = absurd h
  Any-read_items item (e ∷ dir) (inl q) = item_found item dir (read_item parse io now e) q
  Any-read_items item (e ∷ dir) (inr h) = go (read_item parse io now e) (Any-read_items item dir h)
    where
      go :
          (o : Option PendingItem)
          → Any (λ i. i ≡ item) (read_items parse io now dir)
          → Any
              (λ i. i ≡ item)
              (elim o as (λ _. List PendingItem) [
                | none ↦ read_items parse io now dir
                | some j ↦ j ∷ read_items parse io now dir
              ])
      go none a = a
      go (some j) a = inr a

lookup→Any :
    (name : Text) (file : File) (dir : Dir)
    → lookup text_eq name dir ≡ some file
    → Any (λ e. e ≡ (name, file)) dir
unfolding lookup
lookup→Any name file [] l = cc
lookup→Any name file ((m, h) ∷ dir) l = elim (Bool-cases (text_eq m name)) [
  | inl e ↦
      let p : m ≡ name = (text_eq_iff m name).0 e in
      let q : h ≡ file =
        ap (λ o. unwrap_or o h)
          (sym (ap (λ b. if b then some h else lookup text_eq name dir) e) ∙ l) in
      inl (λ i. (p i, q i))
  | inr e ↦ inr (
      lookup→Any name file dir
        (sym (ap (λ b. if b then some h else lookup text_eq name dir) e) ∙ l))
]

-- A rule that was staged, where the calls of the file system succeed and the TOML parser reads the
-- written text back as that rule, is among the proposals that are listed, under the identifier that
-- was returned and with the time at which its file was written; and the list is ordered, oldest first.
pub list_pending-stage_pending :
    (to_toml : RuleSet → Option Text) (parse : Text → Option RuleSet) (io : Io)
    (now written later : ℕ) (disk : Disk) (rule : Rule) (body : Text)
    → io.create_dir ≡ true
    → io.write (pending_name (make_id now rule.name)) ≡ true
    → io.read_dir ≡ true
    → io.read (pending_name (make_id now rule.name)) ≡ true
    → io.mtime (pending_name (make_id now rule.name)) ≡ true
    → to_toml (record { rules = rule ∷ [] }) ≡ some body
    → parse (header ++ body) ≡ some (record { rules = rule ∷ [] })
    → (items : List PendingItem) × (list_pending parse io later
          (stage_pending to_toml io now written disk rule).0
        ≡ some items)
      × Any
          (λ i. i ≡ record { id = make_id now rule.name; rule = rule; created_at = written })
          items
      × Oldest items
unfolding list_pending read_item
list_pending-stage_pending to_toml parse io now written later disk rule body c w d r m t p = (
  sort_items (read_items parse io later dir),
  ap (λ x. list_pending parse io later x.0)
        (stage_pending_lem to_toml io now written disk rule body c w t)
      ∙ when_not io.read_dir _ _ d,
  Any-sort_items _ _ (
      Any-read_items parse io later item dir (
        Any-mono (λ e q. ap (read_item parse io later) q ∙ read_staged) dir
          (lookup→Any name file dir (staged-lookup to_toml io now written disk rule body)))),
  sort_items-Oldest (read_items parse io later dir),
)
  where
    id : Text
    id = make_id now rule.name

    name : Text
    name = pending_name id

    file : File
    file = staged_file to_toml io now written disk rule body

    dir : Dir
    dir = files_of (staged_disk to_toml io now written disk rule body).pending

    item : PendingItem
    item = record { id = id; rule = rule; created_at = written }

    read_staged : read_item parse io later (name, file) ≡ some item
    read_staged =
        let (ext, stem) = pending_name-parts id (make_id_nonempty now rule.name) in
        when_not (is_toml (ext_of (rsplit_dot name))) _ _
          (ap is_toml ext ∙ text_eq_refl (codes "toml"))
        ∙ when_not (io.read name) _ _ r
        ∙ ap
            (λ b.
              item_of (stem_of name (rsplit_dot name)) (if b then written else later)
                (first_rule (parse file.body)))
            m
        ∙ ap (λ i. item_of i written (first_rule (parse file.body))) stem
        ∙ ap (λ o. item_of id written (first_rule o)) p
