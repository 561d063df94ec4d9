-- ===== src/Rules/Matching.antt =====
-- What it means for an event to meet a rule, with no order of tests in it.
use vector_guard.Prelude.{
  ==_iff, Any, Any-mono, Any→any, Bool, List, Option, Text, [], any, any→Any, arith, false,
  if◌then◌else◌, inl, inr, is_empty, none, not, refl, some, starts_with, starts_with_iff, true, ℕ,
  ◌++◌, ◌==◌, ◌↔◌, ◌∷◌, ◌≡◌, ◌⊎◌,
}
use vector_guard.Event.{EventType, NormalizedEvent}
use vector_guard.Glob.{Glob, glob_hit}
use vector_guard.Rules.{
  Rule, matches, process_passes, uid_passes, port_passes, path_passes, exec_passes,
}

-- `p` is a prefix of the text.
abbrev pub PrefixOf : Text → Text → Type 0
PrefixOf s p = (rest : Text) × (s ≡ p ++ rest)

-- A condition that is left out of the rule (an empty list) asks nothing.
abbrev pub Unset {ℓ} : {A : Type ℓ} → List A → Type ℓ
Unset xs = xs ≡ []

abbrev pub PortIn : List ℕ → EventType → Type 0
PortIn ports (EventType.network _ _ port _) = Any (λ p. p ≡ port) ports
PortIn ports _ = ⊥

abbrev pub PathUnder : List Text → EventType → Type 0
PathUnder prefixes (EventType.file_access path _) = Any (PrefixOf path) prefixes
PathUnder prefixes _ = ⊥

abbrev pub ExecUnder : List Text → Text → EventType → Type 0
ExecUnder prefixes binary EventType.exec = Any (PrefixOf binary) prefixes
ExecUnder prefixes binary _ = ⊥

abbrev pub UidIs : Option ℕ → ℕ → Type 0
UidIs none uid = Unit
UidIs (some u) uid = uid ≡ u

module _ {J : Type 0} (g : Glob) (r : Rule) (event : NormalizedEvent J) where
  pub record Satisfies : Type 0 where
    pub process :
        Unset r.match_process
        ⊎ Any (λ pat. glob_hit g pat event.process.binary ≡ true) r.match_process
    pub uid : UidIs r.match_uid event.process.uid
    pub port : Unset r.match_port ⊎ PortIn r.match_port event.event_type
    pub path : Unset r.match_path_prefix ⊎ PathUnder r.match_path_prefix event.event_type
    pub exec :
        Unset r.match_exec_path ⊎ ExecUnder r.match_exec_path event.process.binary event.event_type

prefix_any_iff :
    (s : Text) (ps : List Text) → (any (λ p. starts_with s p) ps ≡ true) ↔ Any (PrefixOf s) ps
prefix_any_iff s ps = (
  λ h. Any-mono (λ p. (starts_with_iff s p).0) ps (any→Any _ ps h),
  λ h. Any→any _ ps (Any-mono (λ p. (starts_with_iff s p).1) ps h),
)

-- Each filter passes exactly when its condition is unset or met.
process_iff :
    (g : Glob) (r : Rule) (binary : Text)
    → (process_passes g r binary ≡ true)
      ↔ (Unset r.match_process ⊎ Any (λ pat. glob_hit g pat binary ≡ true) r.match_process)
process_iff g r binary = go r.match_process
  where
    go :
        (ps : List Text)
        → ((if is_empty ps then true else any (λ pat. glob_hit g pat binary) ps) ≡ true)
          ↔ (Unset ps ⊎ Any (λ pat. glob_hit g pat binary ≡ true) ps)
    go [] = (λ h. inl refl, λ h. refl)
    go (p ∷ ps) =
        (λ h. inr (any→Any _ (p ∷ ps) h), elim [ inl e ↦ cc | inr h ↦ Any→any _ (p ∷ ps) h ])

uid_iff : (o : Option ℕ) (uid : ℕ) → (uid_passes o uid ≡ true) ↔ UidIs o uid
uid_iff none uid = (λ h. tt, λ h. refl)
uid_iff (some u) uid = ==_iff uid u

Unset-iff {ℓ} : {A : Type ℓ} (xs : List A) → (is_empty xs ≡ true) ↔ (Unset xs ⊎ ⊥)
Unset-iff [] = (λ h. inl refl, λ h. refl)
Unset-iff (x ∷ xs) = (λ h. cc, elim [ inl e ↦ cc | inr h ↦ absurd h ])

unless_empty_iff :
    {A : Type 0} (P : A → Type 0) (f : A → Bool) (xs : List A)
    → (any f xs ≡ true) ↔ Any P xs
    → ((if is_empty xs then true else any f xs) ≡ true) ↔ (Unset xs ⊎ Any P xs)
unless_empty_iff P f [] e = (λ h. inl refl, λ h. refl)
unless_empty_iff P f (x ∷ xs) e = (λ h. inr (e.0 h), elim [ inl q ↦ cc | inr h ↦ e.1 h ])

port_any_iff :
    (port : ℕ) (ports : List ℕ) → (any (λ p. p == port) ports ≡ true) ↔ Any (λ p. p ≡ port) ports
port_any_iff port ports = (
  λ h. Any-mono (λ p. (==_iff p port).0) ports (any→Any _ ports h),
  λ h. Any→any _ ports (Any-mono (λ p. (==_iff p port).1) ports h),
)

port_iff :
    (ports : List ℕ) (t : EventType) → (port_passes ports t ≡ true) ↔ (Unset ports ⊎ PortIn ports t)
port_iff ports (EventType.network d ip port proto) =
    unless_empty_iff _ (λ p. p == port) ports (port_any_iff port ports)
port_iff ports EventType.exec = Unset-iff ports
port_iff ports _ = Unset-iff ports

path_iff :
    (ps : List Text) (t : EventType) → (path_passes ps t ≡ true) ↔ (Unset ps ⊎ PathUnder ps t)
path_iff ps (EventType.file_access path flags) =
    unless_empty_iff _ (λ p. starts_with path p) ps (prefix_any_iff path ps)
path_iff ps EventType.exec = Unset-iff ps
path_iff ps _ = Unset-iff ps

exec_iff :
    (ps : List Text) (binary : Text) (t : EventType)
    → (exec_passes ps binary t ≡ true) ↔ (Unset ps ⊎ ExecUnder ps binary t)
exec_iff ps binary EventType.exec =
    unless_empty_iff _ (λ p. starts_with binary p) ps (prefix_any_iff binary ps)
exec_iff ps binary (EventType.signal n t) = Unset-iff ps
exec_iff ps binary _ = Unset-iff ps

module _ {J : Type 0} (g : Glob) (r : Rule) (event : NormalizedEvent J) where
  matches→filters :
      matches g r event ≡ true
      → (process_passes g r event.process.binary ≡ true)
        × (uid_passes r.match_uid event.process.uid ≡ true)
        × (port_passes r.match_port event.event_type ≡ true)
        × (path_passes r.match_path_prefix event.event_type ≡ true)
        × (exec_passes r.match_exec_path event.process.binary event.event_type ≡ true)
  unfolding matches
  matches→filters h =
      chain (process_passes g r event.process.binary) (uid_passes r.match_uid event.process.uid)
        (port_passes r.match_port event.event_type)
        (path_passes r.match_path_prefix event.event_type)
        (exec_passes r.match_exec_path event.process.binary event.event_type) h
    where
      chain :
          (a b c d e : Bool)
          → (if not a
              then false
              else if not b
              then false
              else if not c
              then false
              else if not d
              then false
              else if not e
              then false
              else true)
            ≡ true
          → (a ≡ true) × (b ≡ true) × (c ≡ true) × (d ≡ true) × (e ≡ true)
      chain a b c d e h = ground arith

  filters→matches :
      process_passes g r event.process.binary ≡ true
      → uid_passes r.match_uid event.process.uid ≡ true
      → port_passes r.match_port event.event_type ≡ true
      → path_passes r.match_path_prefix event.event_type ≡ true
      → exec_passes r.match_exec_path event.process.binary event.event_type ≡ true
      → matches g r event ≡ true
  unfolding matches
  filters→matches a b c d e = rw (a, b, c, d, e)

  -- A rule matches an event exactly when every condition that it sets is met: one of the process
  -- patterns hits the binary, the uid is the rule's, and the port, the path prefix and the
  -- executable prefix are met by an event of the kind that they ask for.
  pub matches_iff : (matches g r event ≡ true) ↔ Satisfies g r event
  matches_iff = (
    λ h.
        let (a, b, c, d, e) = matches→filters h in
        record {
          process = (process_iff g r _).0 a;
          uid = (uid_iff r.match_uid _).0 b;
          port = (port_iff r.match_port _).0 c;
          path = (path_iff r.match_path_prefix _).0 d;
          exec = (exec_iff r.match_exec_path _ _).0 e;
        },
    λ s.
        filters→matches ((process_iff g r _).1 s.process) ((uid_iff r.match_uid _).1 s.uid)
          ((port_iff r.match_port _).1 s.port) ((path_iff r.match_path_prefix _).1 s.path)
          ((exec_iff r.match_exec_path _ _).1 s.exec),
  )
