-- ===== src/Enforcer.antt =====
-- vectorguard/src/enforcer.rs: the keys that the Block rules install in the kernel's maps.
-- The maps are aya's and the kernel's: an interface, with the documented behaviour as laws.
pub mod Keys
pub mod Loading
use vector_guard.Prelude.{
  Bool, List, Option, Text, [], false, filter, length, map, min, none, replicate, some, take, true,
  utf8, ℕ, ◌++◌, ◌-◌, ◌∷◌,
}
use vector_guard.Rules.{RuleAction, Rule}

-- `comm_key`: the first sixteen bytes of the name, padded with zeros.
unfoldable pub comm_key : Text → List ℕ
comm_key name =
    let bytes = utf8 name in
    let len = min (length bytes) 16 in take len bytes ++ replicate (16 - len) 0

pub record BlockKeys : Type 0 where
  pub comms : List (List ℕ)
  pub ports : List ℕ
  pub uids : List ℕ

abbrev pub empty_keys : BlockKeys
empty_keys = record { comms = []; ports = []; uids = [] }

-- `r.action == RuleAction::Block`
abbrev pub is_block : Rule → Bool
is_block r = elim r.action [ RuleAction.block ↦ true | _ ↦ false ]

abbrev pub opt_list {ℓ} : {A : Type ℓ} → Option A → List A
opt_list none = []
opt_list (some a) = a ∷ []

-- What one rule pushes.
abbrev pub push_rule : BlockKeys → Rule → BlockKeys
push_rule keys r = record {
  comms = keys.comms ++ map comm_key r.match_process;
  ports = keys.ports ++ r.match_port;
  uids = keys.uids ++ opt_list r.match_uid;
}

unfoldable pub push_rules : List Rule → BlockKeys → BlockKeys
push_rules [] keys = keys
push_rules (r ∷ rs) keys = push_rules rs (push_rule keys r)

-- `compute_block_keys`
unfoldable pub compute_block_keys : List Rule → BlockKeys
compute_block_keys rules = push_rules (filter is_block rules) empty_keys

-- A kernel hash map with values of one byte. `insert` fails where the map is full.
pub record MapApi (K : Type 0) : Type 1 where
  pub Map : Type 0
  -- `map.get(&k).is_some()`
  pub holds : Map → K → Bool
  -- `map.keys()`, with the entries whose reading fails
  pub keys : Map → List (Option K)
  -- `map.insert(k, 1, 0)`
  pub insert : Map → K → Option Map
  -- `map.remove(&k)`, its result ignored
  pub remove : Map → K → Map

pub record Enforcer (c : MapApi (List ℕ)) (p u : MapApi ℕ) : Type 0 where
  pub comms : c.Map
  pub ports : p.Map
  pub uids : u.Map

-- `keys().filter_map(|r| r.ok())`, and a `remove` of each.
unfoldable pub remove_all {ℓ} : {M : Type 0} {K : Type ℓ} → (M → K → M) → M → List (Option K) → M
remove_all remove m [] = m
remove_all remove m (none ∷ ks) = remove_all remove m ks
remove_all remove m (some k ∷ ks) = remove_all remove (remove m k) ks

-- The inserts of one list; an error ends them, and leaves those made so far.
unfoldable pub insert_all : {K : Type 0} (a : MapApi K) → a.Map → List K → a.Map × Bool
insert_all a m [] = (m, true)
insert_all a m (k ∷ ks) = elim (a.insert m k) [ none ↦ (m, false) | some m' ↦ insert_all a m' ks ]

module _ (c : MapApi (List ℕ)) (p u : MapApi ℕ) where
  -- `Enforcer::clear`
  unfoldable pub clear : Enforcer c p u → Enforcer c p u
  unfolding remove_all
  clear e = record {
    comms = remove_all c.remove e.comms (c.keys e.comms);
    ports = remove_all p.remove e.ports (p.keys e.ports);
    uids = remove_all u.remove e.uids (u.keys e.uids);
  }

  abbrev with_uids : Enforcer c p u → u.Map × Bool → Enforcer c p u × Bool
  with_uids e (m, done) = (record e { uids = m }, done)

  abbrev with_ports : BlockKeys → Enforcer c p u → p.Map × Bool → Enforcer c p u × Bool
  with_ports keys e (m, false) = (record e { ports = m }, false)
  with_ports keys e (m, true) = with_uids (record e { ports = m }) (insert_all u e.uids keys.uids)

  abbrev with_comms : BlockKeys → Enforcer c p u → c.Map × Bool → Enforcer c p u × Bool
  with_comms keys e (m, false) = (record e { comms = m }, false)
  with_comms keys e (m, true) =
      with_ports keys (record e { comms = m }) (insert_all p e.ports keys.ports)

  -- `Enforcer::load_rules`: the enforcer, and whether the load returned `Ok`.
  unfoldable pub load_rules : Enforcer c p u → List Rule → Enforcer c p u × Bool
  load_rules e rules =
      let cleared = clear e in
      let keys = compute_block_keys rules in
      with_comms keys cleared (insert_all c cleared.comms keys.comms)
