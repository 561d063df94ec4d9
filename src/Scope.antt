-- ===== src/Scope.antt =====
-- vectorguard/src/scope.rs: which events enter the pipeline.
pub mod InScope
use vector_guard.Prelude.{
  Bool, List, Option, Text, [], all, any, false, if◌then◌else◌, is_empty, lookup, none, not, some,
  split_once, text_eq, trim, true, ◌&&◌, ◌∷◌,
}
use vector_guard.Event.{K8sMeta, NormalizedEvent}
use vector_guard.Config.{ScopeConfig}
use vector_guard.Glob.{Glob}

pub record ScopeFilter (g : Glob) : Type 0 where
  pub target_patterns : List g.Pattern
  pub exclude_processes : List g.Pattern
  pub include_ns : List g.Pattern
  pub exclude_ns : List g.Pattern
  pub label_selectors : List (Text × Text)

-- One "key=value" string: `splitn(2, '=')`, both parts trimmed; a selector with no `=` or with an
-- empty key is dropped.
abbrev pub trimmed_pair : Option (Text × Text) → Option (Text × Text)
trimmed_pair none = none
trimmed_pair (some (k, v)) = if is_empty (trim k) then none else some (trim k, trim v)

unfoldable pub parse_selector : Text → Option (Text × Text)
parse_selector s = trimmed_pair (split_once b'=' s)

-- `filter_map`
abbrev pub filter_map {ℓ κ} : {A : Type ℓ} {B : Type κ} → (A → Option B) → List A → List B
filter_map f [] = []
filter_map f (x ∷ xs) = let rest = filter_map f xs in elim (f x) [ none ↦ rest | some y ↦ y ∷ rest ]

module _ (g : Glob) where
  -- A pattern that does not compile is dropped, with a warning in the log.
  abbrev pub compile_patterns : List Text → List g.Pattern
  compile_patterns raw = filter_map g.compile raw

  -- `ScopeFilter::new`
  unfoldable pub new : ScopeConfig → ScopeFilter g
  new cfg = record {
    target_patterns = compile_patterns cfg.targets;
    exclude_processes = compile_patterns cfg.exclude_processes;
    include_ns = compile_patterns cfg.include_namespaces;
    exclude_ns = compile_patterns cfg.exclude_namespaces;
    label_selectors = filter_map parse_selector cfg.label_selectors;
  }

  abbrev pub any_matches : List g.Pattern → Text → Bool
  any_matches patterns text = any (λ p. g.matches p text) patterns

  abbrev pub selector_passes : List (Text × Text) → Text × Text → Bool
  selector_passes labels (key, val) = elim (lookup text_eq key labels) [
    | none ↦ false
    | some actual ↦ text_eq actual val
  ]

  -- The filters on namespace and labels, which apply to Kubernetes events only.
  abbrev pub k8s_passes : ScopeFilter g → Option K8sMeta → Bool
  k8s_passes f none = true
  k8s_passes f (some k8s) =
      if not (is_empty f.include_ns) && not (any_matches f.include_ns k8s.namespace)
      then false
      else if any_matches f.exclude_ns k8s.namespace
      then false
      else all (selector_passes k8s.labels) f.label_selectors

  -- `ScopeFilter::allows`
  unfoldable pub allows : {J : Type 0} → ScopeFilter g → NormalizedEvent J → Bool
  allows f event =
      if any_matches f.exclude_processes event.process.binary
      then false
      else if not (is_empty f.target_patterns)
          && not (any_matches f.target_patterns event.process.binary)
      then false
      else k8s_passes f event.k8s
