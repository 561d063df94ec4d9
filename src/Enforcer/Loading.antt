-- ===== src/Enforcer/Loading.antt =====
-- What `Enforcer::load_rules` leaves in the kernel's maps.
use vector_guard.Prelude.{
  Any, Bool, List, Option, [], false, inl, inr, none, refl, some, subst, sym, true, ℕ, ◌↔◌, ◌∷◌,
  ◌≡◌, ◌≢◌, ◌⊎◌,
}
use vector_guard.Rules.{Rule}
use vector_guard.Enforcer.{
  MapApi, Enforcer, BlockKeys, compute_block_keys, remove_all, insert_all, clear, load_rules,
}

-- The documented behaviour of a map that nobody else changes meanwhile.
pub record MapLaws {K : Type 0} (a : MapApi K) : Type 0 where
  pub insert_holds :
      (m m' : a.Map) (k j : K)
      → a.insert m k ≡ some m'
      → (a.holds m' j ≡ true) ↔ ((k ≡ j) ⊎ (a.holds m j ≡ true))
  pub remove_holds :
      (m : a.Map) (k j : K) → (a.holds (a.remove m k) j ≡ true) ↔ ((k ≢ j) × (a.holds m j ≡ true))
  pub keys_complete : (m : a.Map) (k : K) → a.holds m k ≡ true → Any (λ o. o ≡ some k) (a.keys m)

module _ {K : Type 0} (a : MapApi K) (laws : MapLaws a) where
  removed-holds :
      (m : a.Map) (ks : List (Option K)) (j : K)
      → a.holds (remove_all a.remove m ks) j ≡ true
      → (a.holds m j ≡ true) × (¬ Any (λ o. o ≡ some j) ks)
  unfolding remove_all
  removed-holds m [] j h = (h, λ e. e)
  removed-holds m (none ∷ ks) j h =
      let (was, out) = removed-holds m ks j h in (was, elim [ inl e ↦ cc | inr q ↦ out q ])
  removed-holds m (some k ∷ ks) j h =
      let (was, out) = removed-holds (a.remove m k) ks j h in
      let (differs, was') = (laws.remove_holds m k j).0 was in
      (was', elim [ inl e ↦ differs (cc) | inr q ↦ out q ])

  -- After removing every key that the map lists, it holds none.
  cleared-empty : (m : a.Map) (j : K) → ¬ (a.holds (remove_all a.remove m (a.keys m)) j ≡ true)
  cleared-empty m j h =
      let (was, out) = removed-holds m (a.keys m) j h in out (laws.keys_complete m j was)

  inserted-holds :
      (m : a.Map) (ks : List K) (j : K)
      → a.holds (insert_all a m ks).0 j ≡ true
      → Any (λ k. k ≡ j) ks ⊎ (a.holds m j ≡ true)
  unfolding insert_all
  inserted-holds m [] j h = inr h
  inserted-holds m (k ∷ ks) j h = go (λ m'. inserted-holds m' ks j) (a.insert m k) refl h
    where
      go :
          ((m' : a.Map)
            → a.holds (insert_all a m' ks).0 j ≡ true
            → Any (λ k. k ≡ j) ks ⊎ (a.holds m' j ≡ true))
          → (o : Option a.Map) → a.insert m k ≡ o
          → a.holds
              (elim o as (λ _. a.Map × Bool) [ none ↦ (m, false) | some m' ↦ insert_all a m' ks ]).0
              j
            ≡ true
          → Any (λ k. k ≡ j) (k ∷ ks) ⊎ (a.holds m j ≡ true)
      go ih none e h = inr h
      go ih (some m') e h = elim (ih m' h) [
        | inl q ↦ inl (inr q)
        | inr q ↦ elim ((laws.insert_holds m m' k j e).0 q) [ inl x ↦ inl (inl x) | inr x ↦ inr x ]
      ]

  all-inserted-holds :
      (m : a.Map) (ks : List K) (j : K)
      → (insert_all a m ks).1 ≡ true
      → Any (λ k. k ≡ j) ks ⊎ (a.holds m j ≡ true)
      → a.holds (insert_all a m ks).0 j ≡ true
  unfolding insert_all
  all-inserted-holds m [] j d (inl h) = absurd h
  all-inserted-holds m [] j d (inr h) = h
  all-inserted-holds m (k ∷ ks) j d h = go (λ m'. all-inserted-holds m' ks j) (a.insert m k) refl d
    where
      go :
          ((m' : a.Map)
            → (insert_all a m' ks).1 ≡ true
            → Any (λ k. k ≡ j) ks ⊎ (a.holds m' j ≡ true)
            → a.holds (insert_all a m' ks).0 j ≡ true)
          → (o : Option a.Map) → a.insert m k ≡ o
          → (elim o as (λ _. a.Map × Bool) [ none ↦ (m, false) | some m' ↦ insert_all a m' ks ]).1
            ≡ true
          → a.holds
              (elim o as (λ _. a.Map × Bool) [ none ↦ (m, false) | some m' ↦ insert_all a m' ks ]).0
              j
            ≡ true
      go ih none e d = cc
      go ih (some m') e d = ih m' d (elim h [
        | inl x ↦ elim x [ inl q ↦ inr ((laws.insert_holds m m' k j e).1 (inl q)) | inr q ↦ inl q ]
        | inr q ↦ inr ((laws.insert_holds m m' k j e).1 (inr q))
      ])

module _ {K : Type 0} (a : MapApi K) (laws : MapLaws a) (m : a.Map) (ks : List K) (j : K) where
  -- The map after a clear and the inserts.
  abbrev refilled : a.Map × Bool
  refilled = insert_all a (remove_all a.remove m (a.keys m)) ks

  refilled→key : a.holds refilled.0 j ≡ true → Any (λ k. k ≡ j) ks
  refilled→key h = elim (inserted-holds a laws _ ks j h) [
    | inl q ↦ q
    | inr q ↦ absurd (cleared-empty a laws m j q)
  ]

  key→refilled : refilled.1 ≡ true → Any (λ k. k ≡ j) ks → a.holds refilled.0 j ≡ true
  key→refilled d h = all-inserted-holds a laws _ ks j d (inl h)

-- A key of one of the three maps.
pub data Key : Type 0 where
  comm : List ℕ → Key
  port uid : ℕ → Key

abbrev pub holds_key : (c : MapApi (List ℕ)) (p u : MapApi ℕ) → Enforcer c p u → Key → Bool
holds_key c p u e (Key.comm k) = c.holds e.comms k
holds_key c p u e (Key.port k) = p.holds e.ports k
holds_key c p u e (Key.uid k) = u.holds e.uids k

abbrev pub KeyIn : BlockKeys → Key → Type 0
KeyIn keys (Key.comm k) = Any (λ x. x ≡ k) keys.comms
KeyIn keys (Key.port k) = Any (λ x. x ≡ k) keys.ports
KeyIn keys (Key.uid k) = Any (λ x. x ≡ k) keys.uids

module _ (c : MapApi (List ℕ)) (p u : MapApi ℕ) (lc : MapLaws c) (lp : MapLaws p) (lu : MapLaws u)
    (e : Enforcer c p u) (rules : List Rule) where
  abbrev keys : BlockKeys
  keys = compute_block_keys rules

  abbrev cleared : Enforcer c p u
  cleared = clear c p u e

  -- The maps after the three lists of inserts, each a prefix of its list where an insert failed.
  outcome :
      (pc : c.Map × Bool) (pp : p.Map × Bool) (pu : u.Map × Bool)
      → insert_all c cleared.comms keys.comms ≡ pc
      → insert_all p cleared.ports keys.ports ≡ pp
      → insert_all u cleared.uids keys.uids ≡ pu
      → ((load_rules c p u e rules).0.comms ≡ pc.0)
        × (((load_rules c p u e rules).0.ports ≡ cleared.ports)
            ⊎ ((load_rules c p u e rules).0.ports ≡ pp.0))
        × (((load_rules c p u e rules).0.uids ≡ cleared.uids)
            ⊎ ((load_rules c p u e rules).0.uids ≡ pu.0))
  unfolding load_rules
  outcome (mc, false) pp pu ec ep eu = rw ec (refl, inl refl, inl refl)
  outcome (mc, true) (mp, false) pu ec ep eu = rw (ec, ep) (refl, inr refl, inl refl)
  outcome (mc, true) (mp, true) (mu, b) ec ep eu = rw (ec, ep, eu) (refl, inr refl, inr refl)

  loaded :
      (pc : c.Map × Bool) (pp : p.Map × Bool) (pu : u.Map × Bool)
      → insert_all c cleared.comms keys.comms ≡ pc
      → insert_all p cleared.ports keys.ports ≡ pp
      → insert_all u cleared.uids keys.uids ≡ pu
      → (load_rules c p u e rules).1 ≡ true
      → (pc.1 ≡ true)
        × (pp.1 ≡ true)
        × (pu.1 ≡ true)
        × ((load_rules c p u e rules).0.ports ≡ pp.0)
        × ((load_rules c p u e rules).0.uids ≡ pu.0)
  unfolding load_rules
  loaded (mc, false) pp pu ec ep eu h = cc (rw ec at h)
  loaded (mc, true) (mp, false) pu ec ep eu h = cc (rw (ec, ep) at h)
  loaded (mc, true) (mp, true) (mu, false) ec ep eu h = cc (rw (ec, ep, eu) at h)
  loaded (mc, true) (mp, true) (mu, true) ec ep eu h =
      (refl, refl, refl, rw (ec, ep) refl, rw (ec, ep, eu) refl)

  -- For maps that keep the laws of a map: whether it returns `Ok` or stops at a failed insert,
  -- `load_rules` leaves no key in a map that the rules do not install; what an earlier set of rules
  -- had put there is gone.
  pub load_rules-nothing_stale :
      (key : Key)
      → holds_key c p u (load_rules c p u e rules).0 key ≡ true
      → KeyIn (compute_block_keys rules) key
  unfolding clear
  load_rules-nothing_stale key h =
      let (ec, ep, eu) = outcome _ _ _ refl refl refl in by_kind ec ep eu key h
    where
      by_kind :
          ((load_rules c p u e rules).0.comms ≡ (insert_all c cleared.comms keys.comms).0)
          → (((load_rules c p u e rules).0.ports ≡ cleared.ports)
              ⊎ ((load_rules c p u e rules).0.ports ≡ (insert_all p cleared.ports keys.ports).0))
          → (((load_rules c p u e rules).0.uids ≡ cleared.uids)
              ⊎ ((load_rules c p u e rules).0.uids ≡ (insert_all u cleared.uids keys.uids).0))
          → (key : Key) → holds_key c p u (load_rules c p u e rules).0 key ≡ true
          → KeyIn (compute_block_keys rules) key
      by_kind ec ep eu (Key.comm k) h =
          refilled→key c lc e.comms keys.comms k (subst (λ m. c.holds m k ≡ true) ec h)
      by_kind ec (inl q) eu (Key.port k) h =
          absurd (cleared-empty p lp e.ports k (subst (λ m. p.holds m k ≡ true) q h))
      by_kind ec (inr q) eu (Key.port k) h =
          refilled→key p lp e.ports keys.ports k (subst (λ m. p.holds m k ≡ true) q h)
      by_kind ec ep (inl q) (Key.uid k) h =
          absurd (cleared-empty u lu e.uids k (subst (λ m. u.holds m k ≡ true) q h))
      by_kind ec ep (inr q) (Key.uid k) h =
          refilled→key u lu e.uids keys.uids k (subst (λ m. u.holds m k ≡ true) q h)

  -- For maps that keep the laws of a map: where `load_rules` returns `Ok`, the maps hold exactly
  -- the keys that the rules install, whatever they held before.
  pub load_rules-exact :
      (key : Key)
      → (load_rules c p u e rules).1 ≡ true
      → (holds_key c p u (load_rules c p u e rules).0 key ≡ true)
        ↔ KeyIn (compute_block_keys rules) key
  unfolding clear
  load_rules-exact key done = (load_rules-nothing_stale key, λ h. installed key h)
    where
      installed :
          (key : Key)
          → KeyIn (compute_block_keys rules) key
          → holds_key c p u (load_rules c p u e rules).0 key ≡ true
      installed (Key.comm k) h =
          let (ec, ep, eu) = outcome _ _ _ refl refl refl in
          let (dc, dp, du, qp, qu) = loaded _ _ _ refl refl refl done in
          subst (λ m. c.holds m k ≡ true) (sym ec) (key→refilled c lc e.comms keys.comms k dc h)
      installed (Key.port k) h =
          let (dc, dp, du, qp, qu) = loaded _ _ _ refl refl refl done in
          subst (λ m. p.holds m k ≡ true) (sym qp) (key→refilled p lp e.ports keys.ports k dp h)
      installed (Key.uid k) h =
          let (dc, dp, du, qp, qu) = loaded _ _ _ refl refl refl done in
          subst (λ m. u.holds m k ≡ true) (sym qu) (key→refilled u lu e.uids keys.uids k du h)
