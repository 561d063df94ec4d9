-- ===== src/Kernel/Policy.antt =====
-- The rules of user space against what the kernel programs enforce.
use vector_guard.Prelude.{
  All, Any, Any-mono, Bool-cases, List, Option, [], ap, false, filter, inl, inr, none, refl, some,
  subst, sym, true, ℕ, ◌↔◌, ◌∙◌, ◌∷◌, ◌≡◌, ◌≢◌, ◌⊎◌,
}
use vector_guard.Event.{NormalizedEvent}
use vector_guard.Glob.{Glob}
use vector_guard.Rules.{RuleAction, Rule, matches}
use vector_guard.Rules.Matching.{UidIs, matches_iff}
use vector_guard.Enforcer.{
  MapApi, Enforcer, comm_key, load_rules, compute_block_keys, push_rules, push_rule, is_block,
  empty_keys,
}
use vector_guard.Enforcer.Keys.{SomeBlock, compute_block_keys_iff}
use vector_guard.Enforcer.Loading.{MapLaws, load_rules-exact, Key}
use vector_guard.Common.{RawEvent}
use vector_guard.Kernel.{Call, Lists, get_comm, low32, lsm_exec, handle_file_open, lsm_file_open}
use vector_guard.Kernel.Blocking.{lsm_exec_iff}

-- The maps of the enforcer, as the programs read them.
abbrev pub lists_of : (c : MapApi (List ℕ)) (p u : MapApi ℕ) → Enforcer c p u → Lists
lists_of c p u e = record {
  comms = c.holds e.comms;
  ports = p.holds e.ports;
  uids = u.holds e.uids;
}

-- A rule that names the caller: by a process pattern whose key is its command name, or by its uid.
abbrev pub NamesCaller : Call → Rule → Type 0
NamesCaller k r =
    Any (λ pat. comm_key pat ≡ get_comm k) r.match_process ⊎ (r.match_uid ≡ some (low32 k.uid_gid))

module _ (c : MapApi (List ℕ)) (p u : MapApi ℕ) (lc : MapLaws c) (lp : MapLaws p) (lu : MapLaws u)
    (e : Enforcer c p u) (rules : List Rule) (k : Call)
    (loaded : (load_rules c p u e rules).1 ≡ true) where
  -- For kernel maps that keep the laws of a map: after `load_rules` returned `Ok`, the exec hook
  -- denies a call exactly when some Block rule names the caller's command or uid; the other
  -- conditions of that rule and the rules before it do not count.
  pub lsm_exec-policy :
      (lsm_exec (lists_of c p u (load_rules c p u e rules).0) k ≡ true)
      ↔ SomeBlock (NamesCaller k) rules
  lsm_exec-policy =
      let by_comm = load_rules-exact c p u lc lp lu e rules (Key.comm (get_comm k)) loaded in
      let by_uid = load_rules-exact c p u lc lp lu e rules (Key.uid (low32 k.uid_gid)) loaded in
      let (comm_source, _, uid_source) =
        compute_block_keys_iff rules (get_comm k) 0 (low32 k.uid_gid) in
      let hook = lsm_exec_iff (lists_of c p u (load_rules c p u e rules).0) k in
      (
        λ h. elim (hook.0 h) [
          | inl a ↦ Any-mono (λ r (b, q). (b, inl q)) rules (comm_source.0 (by_comm.0 a))
          | inr a ↦ Any-mono (λ r (b, q). (b, inr q)) rules (uid_source.0 (by_uid.0 a))
        ],
        λ s. hook.1 (elim (split rules s) [
          | inl a ↦ inl (by_comm.1 (comm_source.1 a))
          | inr a ↦ inr (by_uid.1 (uid_source.1 a))
        ]),
      )
    where
      split :
          (rs : List Rule)
          → SomeBlock (NamesCaller k) rs
          → SomeBlock (λ r. Any (λ pat. comm_key pat ≡ get_comm k) r.match_process) rs
            ⊎ SomeBlock (λ r. r.match_uid ≡ some (low32 k.uid_gid)) rs
      split [] h = absurd h
      split (r ∷ rs) (inl (b, inl a)) = inl (inl (b, a))
      split (r ∷ rs) (inl (b, inr a)) = inr (inl (b, a))
      split (r ∷ rs) (inr h) = elim (split rs h) [ inl a ↦ inl (inr a) | inr a ↦ inr (inr a) ]

  -- For kernel maps that keep the laws of a map and a load that returned `Ok`: a Block rule for one
  -- command and one uid stops that command under every uid. The kernel denies the call of a caller
  -- with the command name and another uid, whose events the rule itself does not match.
  pub conjunction_lost :
      {J : Type 0} (g : Glob) (event : NormalizedEvent J) (r : Rule) (uid : ℕ)
      → Any (λ x. x ≡ r) rules
      → r.action ≡ RuleAction.block
      → Any (λ pat. comm_key pat ≡ get_comm k) r.match_process
      → r.match_uid ≡ some uid
      → low32 k.uid_gid ≢ uid
      → event.process.uid ≡ low32 k.uid_gid
      → (lsm_exec (lists_of c p u (load_rules c p u e rules).0) k ≡ true)
        × (matches g r event ≡ false)
  conjunction_lost g event r uid member blocks named for_uid other_uid of_caller = (
    lsm_exec-policy.1 (
        Any-mono
          (λ x q.
            subst (λ y. (y.action ≡ RuleAction.block) × NamesCaller k y) (sym q)
              (blocks, inl named))
          rules member),
    elim (Bool-cases (matches g r event)) [
      | inl h ↦
          absurd (
            other_uid
              (sym of_caller ∙ uid_of r.match_uid for_uid ((matches_iff g r event).0 h).uid))
      | inr h ↦ h
    ],
  )
    where
      uid_of : (o : Option ℕ) → o ≡ some uid → UidIs o event.process.uid → event.process.uid ≡ uid
      uid_of none q s = cc
      uid_of (some v) q s = s ∙ (cc)

-- A rule with a path condition at most: no process pattern, no port, no uid.
abbrev pub PathOnly : Rule → Type 0
PathOnly r = (r.match_process ≡ []) × (r.match_port ≡ []) × (r.match_uid ≡ none)

push-PathOnly : (r : Rule) → PathOnly r → push_rule empty_keys r ≡ empty_keys
push-PathOnly r (a, b, c) = rw (a, b, c) refl

no_keys :
    (rs : List Rule) → All PathOnly rs → push_rules (filter is_block rs) empty_keys ≡ empty_keys
unfolding push_rules
no_keys [] o = refl
no_keys (r ∷ rs) o = elim (Bool-cases (is_block r)) [
  | inl e ↦ rw e (ap (push_rules (filter is_block rs)) (push-PathOnly r o.0) ∙ no_keys rs o.1)
  | inr e ↦ rw e (no_keys rs o.1)
]

file_open_by_slot :
    (k : Call) (o : Option RawEvent) → (handle_file_open (record k { slot = o })).killed ≡ false
unfolding handle_file_open
file_open_by_slot k none = refl
file_open_by_slot k (some old) = refl

-- Rules that only name paths install no key at all, so whatever prefixes they block, the programs
-- neither kill nor deny a call that opens a file.
path_rules_unenforced :
    (rules : List Rule) (k : Call)
    → All PathOnly rules
    → (compute_block_keys rules ≡ empty_keys)
      × ((handle_file_open k).killed ≡ false)
      × (lsm_file_open k ≡ false)
unfolding compute_block_keys
path_rules_unenforced rules k only = (no_keys rules only, file_open_by_slot k k.slot, refl)
