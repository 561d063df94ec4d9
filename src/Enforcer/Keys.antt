-- ===== src/Enforcer/Keys.antt =====
-- The keys that a rule list installs, and the shape of one key.
use vector_guard.Prelude.{
  All, Any, Any-append, Any-append_left, Any-append_right, Any-filter, Any-mono, Any-of_map, List,
  Option, Text, [], ap, arith, filter, filter-Any, get_elem?, inl, inr, length, length-append,
  length-replicate, length-take, map, min, none, refl, replicate, some, subst, suc, take, true,
  utf8, zero, ℕ, ◌++◌, ◌-◌, ◌<◌, ◌↔◌, ◌∙◌, ◌∷◌, ◌≡◌, ◌≢◌, ◌≤◌, ◌⊎◌,
}
use vector_guard.Rules.{RuleAction, Rule}
use vector_guard.Enforcer.{
  comm_key, is_block, opt_list, push_rule, push_rules, compute_block_keys, BlockKeys, empty_keys,
}

abbrev pub UidOf : ℕ → Rule → Type 0
UidOf k r = r.match_uid ≡ some k

-- Some rule of the list has the action Block, and the property.
abbrev pub SomeBlock : (Rule → Type 0) → List Rule → Type 0
SomeBlock P rules = Any (λ r. (r.action ≡ RuleAction.block) × P r) rules

-- A key is sixteen bytes long, whatever the name.
pub length-comm_key : (name : Text) → length (comm_key name) ≡ 16
unfolding comm_key
length-comm_key name = omega (
  arith,
  length-append (take (min (length (utf8 name)) 16) (utf8 name))
      (replicate (16 - min (length (utf8 name)) 16) 0),
  length-take (min (length (utf8 name)) 16) (utf8 name),
  length-replicate {A = ℕ} (16 - min (length (utf8 name)) 16) 0,
)

is_block→eq : (r : Rule) → is_block r ≡ true → r.action ≡ RuleAction.block
is_block→eq r h = ground arith

eq→is_block : (r : Rule) → r.action ≡ RuleAction.block → is_block r ≡ true
eq→is_block r h = rw h

-- One of the three lists of keys, `proj`, to which each rule appends its `items`.
module _ {K : Type 0} (proj : BlockKeys → List K) (items : Rule → List K)
    (appends : (keys : BlockKeys) (r : Rule) → proj (push_rule keys r) ≡ proj keys ++ items r)
    (k : K) where
  pushed→source :
      (rs : List Rule) (keys : BlockKeys)
      → Any (λ x. x ≡ k) (proj (push_rules rs keys))
      → Any (λ x. x ≡ k) (proj keys) ⊎ Any (λ r. Any (λ x. x ≡ k) (items r)) rs
  unfolding push_rules
  pushed→source [] keys h = inl h
  pushed→source (r ∷ rs) keys h = elim (pushed→source rs (push_rule keys r) h) [
    | inl a ↦ elim (Any-append _ (proj keys) (items r) (rw (appends keys r) at a)) [
      | inl x ↦ inl x
      | inr y ↦ inr (inl y)
    ]
    | inr b ↦ inr (inr b)
  ]

  source→pushed :
      (rs : List Rule) (keys : BlockKeys)
      → Any (λ x. x ≡ k) (proj keys) ⊎ Any (λ r. Any (λ x. x ≡ k) (items r)) rs
      → Any (λ x. x ≡ k) (proj (push_rules rs keys))
  unfolding push_rules
  source→pushed [] keys (inl h) = h
  source→pushed [] keys (inr h) = absurd h
  source→pushed (r ∷ rs) keys (inl h) =
      source→pushed rs (push_rule keys r)
        (inl (rw (appends keys r) (Any-append_left _ (proj keys) (items r) h)))
  source→pushed (r ∷ rs) keys (inr (inl h)) =
      source→pushed rs (push_rule keys r)
        (inl (rw (appends keys r) (Any-append_right _ (proj keys) (items r) h)))
  source→pushed (r ∷ rs) keys (inr (inr h)) = source→pushed rs (push_rule keys r) (inr h)

  key_iff :
      (rules : List Rule)
      → proj empty_keys ≡ []
      → Any (λ x. x ≡ k) (proj (compute_block_keys rules))
        ↔ SomeBlock (λ r. Any (λ x. x ≡ k) (items r)) rules
  unfolding compute_block_keys
  key_iff rules start_empty = (
    λ h. elim (pushed→source (filter is_block rules) empty_keys h) [
      | inl a ↦ absurd (subst (Any (λ x. x ≡ k)) start_empty a)
      | inr b ↦ Any-mono (λ r (e, q). (is_block→eq r e, q)) rules (Any-filter _ is_block rules b)
    ],
    λ h.
        source→pushed (filter is_block rules) empty_keys
          (inr (filter-Any _ is_block rules (Any-mono (λ r (e, q). (eq→is_block r e, q)) rules h))),
  )

-- A name, a port or a uid is a key exactly when some Block rule names it: as one of its process
-- patterns (taken as a literal name), as one of its ports, or as its uid. No other condition of
-- the rule plays a part.
pub compute_block_keys_iff :
    (rules : List Rule) (comm : List ℕ) (port uid : ℕ)
    → (Any (λ x. x ≡ comm) (compute_block_keys rules).comms
        ↔ SomeBlock (λ r. Any (λ pat. comm_key pat ≡ comm) r.match_process) rules)
      × (Any (λ x. x ≡ port) (compute_block_keys rules).ports
          ↔ SomeBlock (λ r. Any (λ x. x ≡ port) r.match_port) rules)
      × (Any (λ x. x ≡ uid) (compute_block_keys rules).uids
          ↔ SomeBlock (λ r. r.match_uid ≡ some uid) rules)
compute_block_keys_iff rules comm port uid = (
  (
    λ h.
        Any-mono (λ r (e, a). (e, (Any-of_map _ comm_key r.match_process).0 a)) rules
          ((comms rules refl).0 h),
    λ h.
        (comms rules refl).1
          (Any-mono (λ r (e, a). (e, (Any-of_map _ comm_key r.match_process).1 a)) rules h),
  ),
  key_iff (λ k. k.ports) (λ r. r.match_port) (λ k r. refl) port rules refl,
  (
    λ h. Any-mono (λ r (e, a). (e, from_list r.match_uid a)) rules ((uids rules refl).0 h),
    λ h. (uids rules refl).1 (Any-mono (λ r (e, q). (e, to_list r.match_uid q)) rules h),
  ),
)
  where
    comms :
        (rs : List Rule)
        → empty_keys.comms ≡ []
        → Any (λ x. x ≡ comm) (compute_block_keys rs).comms
          ↔ SomeBlock (λ r. Any (λ x. x ≡ comm) (map comm_key r.match_process)) rs
    comms = key_iff (λ k. k.comms) (λ r. map comm_key r.match_process) (λ k r. refl) comm

    uids :
        (rs : List Rule)
        → empty_keys.uids ≡ []
        → Any (λ x. x ≡ uid) (compute_block_keys rs).uids
          ↔ SomeBlock (λ r. Any (λ x. x ≡ uid) (opt_list r.match_uid)) rs
    uids = key_iff (λ k. k.uids) (λ r. opt_list r.match_uid) (λ k r. refl) uid

    from_list : (o : Option ℕ) → Any (λ x. x ≡ uid) (opt_list o) → o ≡ some uid
    from_list none h = absurd h
    from_list (some u) (inl e) = ap some e
    from_list (some u) (inr h) = absurd h

    to_list : (o : Option ℕ) → o ≡ some uid → Any (λ x. x ≡ uid) (opt_list o)
    to_list none e = cc
    to_list (some u) e = inl (cc)

nonzero_at :
    (n i : ℕ) (bytes rest : List ℕ)
    → i < n
    → i < length bytes
    → All (λ b. b ≢ 0) bytes
    → get_elem? (take n bytes ++ rest) i ≢ some 0
nonzero_at zero i bytes rest h k a = absurd (omega arith)
nonzero_at (suc n) i [] rest h k a = absurd (omega arith)
nonzero_at (suc n) zero (b ∷ bytes) rest h k a = λ e. a.0 (ground arith)
nonzero_at (suc n) (suc i) (b ∷ bytes) rest h k a =
    nonzero_at n i bytes rest (omega arith) (omega arith) a.1

-- The kernel ends a command name by a zero in the last of its sixteen bytes, so the key of a name
-- of sixteen bytes or more (with no zero byte) is never the name of a task.
long_name-ne_comm :
    (name : Text) (comm : List ℕ)
    → 16 ≤ length (utf8 name)
    → All (λ b. b ≢ 0) (utf8 name)
    → get_elem? comm 15 ≡ some 0
    → comm_key name ≢ comm
unfolding comm_key
long_name-ne_comm name comm long nonzero ends e =
    nonzero_at (min (length (utf8 name)) 16) 15 (utf8 name) _ (omega arith) (omega arith) nonzero
      (ap (λ l. get_elem? l 15) e ∙ ends)
