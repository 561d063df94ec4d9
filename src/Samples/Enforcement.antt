-- ===== src/Samples/Enforcement.antt =====
-- The enforcer on concrete rules, and what the kernel programs make of its maps.
use vector_guard.Prelude.{
  Any, List, [], arith, codes, false, inl, refl, some, text_eq, true, utf8, ◌↔◌, ◌∷◌, ◌≡◌,
}
use vector_guard.Event.{NormalizedEvent, Action, EventType}
use vector_guard.Rules.{Rule, RuleAction, matches}
use vector_guard.Glob.{literal_glob}
use vector_guard.Enforcer.{
  Enforcer, compute_block_keys, comm_key, load_rules, insert_all, push_rules,
}
use vector_guard.Enforcer.Keys.{SomeBlock, compute_block_keys_iff}
use vector_guard.Enforcer.Loading.{
  Key, KeyIn, holds_key, load_rules-exact, load_rules-nothing_stale,
}
use vector_guard.Kernel.{lsm_exec}
use vector_guard.Kernel.Policy.{NamesCaller, lists_of, lsm_exec-policy, conjunction_lost}
use vector_guard.Samples.{event_of, block_nc, alert_4444, rule_of}
use vector_guard.Samples.Maps.{bytes_map, number_map, bytes_map_laws, number_map_laws}
use vector_guard.Samples.Programs.{connects4}

abbrev sample_rules : List Rule
sample_rules = block_nc ∷ alert_4444 ∷ []

compute_block_keys_iff_example :
    (Any (λ x. x ≡ comm_key (codes "nc")) (compute_block_keys sample_rules).comms
      ↔ SomeBlock
          (λ r. Any (λ pat. comm_key pat ≡ comm_key (codes "nc")) r.match_process)
          sample_rules)
    × (Any (λ x. x ≡ 4444) (compute_block_keys sample_rules).ports
        ↔ SomeBlock (λ r. Any (λ x. x ≡ 4444) r.match_port) sample_rules)
    × (Any (λ x. x ≡ 0) (compute_block_keys sample_rules).uids
        ↔ SomeBlock (λ r. r.match_uid ≡ some 0) sample_rules)
compute_block_keys_iff_example = compute_block_keys_iff sample_rules (comm_key (codes "nc")) 4444 0

-- The uid 33 is left over from earlier rules.
abbrev full : Enforcer bytes_map number_map number_map
full = record { comms = []; ports = 22 ∷ []; uids = 33 ∷ [] }

run_load : (load_rules bytes_map number_map number_map full sample_rules).1 ≡ true
unfolding load_rules compute_block_keys insert_all push_rules
run_load = refl

load_rules-exact_example :
    (holds_key bytes_map number_map number_map
        (load_rules bytes_map number_map number_map full sample_rules).0
        (Key.comm (comm_key (codes "nc")))
      ≡ true)
    ↔ KeyIn (compute_block_keys sample_rules) (Key.comm (comm_key (codes "nc")))
load_rules-exact_example =
    load_rules-exact bytes_map number_map number_map bytes_map_laws number_map_laws number_map_laws
      full sample_rules (Key.comm (comm_key (codes "nc"))) run_load

run_nc_held :
    holds_key bytes_map number_map number_map
      (load_rules bytes_map number_map number_map full sample_rules).0
      (Key.comm (comm_key (codes "nc")))
    ≡ true
unfolding load_rules compute_block_keys insert_all push_rules comm_key utf8 text_eq
run_nc_held = refl

load_rules-nothing_stale_example :
    KeyIn (compute_block_keys sample_rules) (Key.comm (comm_key (codes "nc")))
load_rules-nothing_stale_example =
    load_rules-nothing_stale bytes_map number_map number_map bytes_map_laws number_map_laws
      number_map_laws full sample_rules (Key.comm (comm_key (codes "nc"))) run_nc_held

lsm_exec-policy_example :
    (lsm_exec
        (lists_of bytes_map number_map number_map
          (load_rules bytes_map number_map number_map full sample_rules).0)
        connects4
      ≡ true)
    ↔ SomeBlock (NamesCaller connects4) sample_rules
lsm_exec-policy_example =
    lsm_exec-policy bytes_map number_map number_map bytes_map_laws number_map_laws number_map_laws
      full sample_rules connects4 run_load

-- Meant for root only.
abbrev block_root_nc : Rule
block_root_nc = rule_of (codes "block-root-nc") RuleAction.block (codes "nc" ∷ []) [] (some 0)

abbrev nc_runs : NormalizedEvent Unit
nc_runs = event_of (codes "nc") EventType.exec Action.allowed

run_load_root : (load_rules bytes_map number_map number_map full (block_root_nc ∷ [])).1 ≡ true
unfolding load_rules compute_block_keys insert_all push_rules
run_load_root = refl

conjunction_lost_example :
    (lsm_exec
        (lists_of bytes_map number_map number_map
          (load_rules bytes_map number_map number_map full (block_root_nc ∷ [])).0)
        connects4
      ≡ true)
    × (matches literal_glob block_root_nc nc_runs ≡ false)
conjunction_lost_example =
    conjunction_lost bytes_map number_map number_map bytes_map_laws number_map_laws number_map_laws
      full (block_root_nc ∷ []) connects4 run_load_root literal_glob nc_runs block_root_nc 0
      (inl refl) refl (inl refl) refl (omega arith) refl
