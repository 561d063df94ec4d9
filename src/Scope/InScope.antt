-- ===== src/Scope/InScope.antt =====
-- What it means for an event to be in scope, in terms of the configured texts.
use vector_guard.Prelude.{
  All, Any, Any→any, Bool-cases, List, Option, Text, [], all, any, any→Any, ap, arith, false,
  false≢true, inl, inr, is_empty, lookup, none, not, refl, some, sym, text_eq, text_eq_iff, true,
  ◌&&◌, ◌↔◌, ◌∙◌, ◌∷◌, ◌≡◌, ◌⊎◌,
}
use vector_guard.Event.{K8sMeta, NormalizedEvent}
use vector_guard.Config.{ScopeConfig}
use vector_guard.Glob.{Glob, glob_hit}
use vector_guard.Scope.{
  parse_selector, filter_map, compile_patterns, any_matches, selector_passes, allows, new,
  k8s_passes,
}

module _ (g : Glob) where
  -- Some configured pattern compiles and matches the text.
  abbrev pub Hit : List Text → Text → Type 0
  Hit pats text = Any (λ pat. glob_hit g pat text ≡ true) pats

  -- No configured pattern compiles, in particular where there is none.
  abbrev pub NoneCompiles : List Text → Type 0
  NoneCompiles pats = All (λ pat. g.compile pat ≡ none) pats

  abbrev pub Selected : List Text → List (Text × Text) → Type 0
  Selected selectors labels =
      All (λ (k, v). lookup text_eq k labels ≡ some v) (filter_map parse_selector selectors)

  abbrev pub K8sInScope : ScopeConfig → Option K8sMeta → Type 0
  K8sInScope cfg none = Unit
  K8sInScope cfg (some k8s) =
      (NoneCompiles cfg.include_namespaces ⊎ Hit cfg.include_namespaces k8s.namespace)
      × (¬ Hit cfg.exclude_namespaces k8s.namespace)
      × Selected cfg.label_selectors k8s.labels

  module _ {J : Type 0} (cfg : ScopeConfig) (event : NormalizedEvent J) where
    pub record InScope : Type 0 where
      pub not_excluded : ¬ Hit cfg.exclude_processes event.process.binary
      pub targeted : NoneCompiles cfg.targets ⊎ Hit cfg.targets event.process.binary
      pub k8s : K8sInScope cfg event.k8s

  any_matches-eq :
      (pats : List Text) (text : Text)
      → any_matches g (compile_patterns g pats) text ≡ any (λ pat. glob_hit g pat text) pats
  any_matches-eq [] text = refl
  any_matches-eq (p ∷ ps) text = ground (arith, any_matches-eq ps text)

  Hit-iff :
      (pats : List Text) (text : Text)
      → (any_matches g (compile_patterns g pats) text ≡ true) ↔ Hit pats text
  Hit-iff pats text = (
    λ h. any→Any _ pats (sym (any_matches-eq pats text) ∙ h),
    λ h. any_matches-eq pats text ∙ Any→any _ pats h,
  )

  not-Hit_iff :
      (pats : List Text) (text : Text)
      → (any_matches g (compile_patterns g pats) text ≡ false) ↔ (¬ Hit pats text)
  not-Hit_iff pats text = (
    λ h k. false≢true (sym h ∙ (Hit-iff pats text).1 k),
    λ n. elim (Bool-cases (any_matches g (compile_patterns g pats) text)) [
      | inl h ↦ absurd (n ((Hit-iff pats text).0 h))
      | inr h ↦ h
    ],
  )

  NoneCompiles-iff :
      (pats : List Text) → (is_empty (compile_patterns g pats) ≡ true) ↔ NoneCompiles pats
  NoneCompiles-iff [] = (λ h. tt, λ h. refl)
  NoneCompiles-iff (p ∷ ps) = (
    λ h. (ground arith, (NoneCompiles-iff ps).0 (ground arith)),
    λ h. ground (arith, (NoneCompiles-iff ps).1 h.1),
  )

  -- A list that must be hit unless it is empty.
  required_iff :
      (pats : List Text) (text : Text)
      → ((not (is_empty (compile_patterns g pats))
            && not (any_matches g (compile_patterns g pats) text))
          ≡ false)
        ↔ (NoneCompiles pats ⊎ Hit pats text)
  required_iff pats text = (
    λ h. elim (Bool-cases (is_empty (compile_patterns g pats))) [
      | inl e ↦ inl ((NoneCompiles-iff pats).0 e)
      | inr e ↦ inr ((Hit-iff pats text).0 (ground arith))
    ],
    elim [
      | inl n ↦ rw ((NoneCompiles-iff pats).1 n) refl
      | inr k ↦ let e = (Hit-iff pats text).1 k in ground arith
    ],
  )

  selector_iff :
      (labels : List (Text × Text)) (s : Text × Text)
      → (selector_passes g labels s ≡ true) ↔ (lookup text_eq s.0 labels ≡ some s.1)
  selector_iff labels (k, v) = go (lookup text_eq k labels)
    where
      go :
          (o : Option Text)
          → (elim o [ none ↦ false | some actual ↦ text_eq actual v ] ≡ true) ↔ (o ≡ some v)
      go none = (λ h. cc, λ h. cc)
      go (some a) = (λ h. ap some ((text_eq_iff a v).0 h), λ h. (text_eq_iff a v).1 (cc))

  selectors_iff :
      (labels selectors : List (Text × Text))
      → (all (selector_passes g labels) selectors ≡ true)
        ↔ All (λ (k, v). lookup text_eq k labels ≡ some v) selectors
  selectors_iff labels [] = (λ h. tt, λ h. refl)
  selectors_iff labels ((k, v) ∷ ss) = (
    λ h.
        ((selector_iff labels (k, v)).0 (ground arith), (selectors_iff labels ss).0 (ground arith)),
    λ h. ground (arith, (selector_iff labels (k, v)).1 h.0, (selectors_iff labels ss).1 h.1),
  )

  k8s_iff :
      (cfg : ScopeConfig) (o : Option K8sMeta)
      → (k8s_passes g (new g cfg) o ≡ true) ↔ K8sInScope cfg o
  unfolding new
  k8s_iff cfg none = (λ h. tt, λ h. refl)
  k8s_iff cfg (some k8s) = (
    λ h. (
      (required_iff cfg.include_namespaces k8s.namespace).0 (ground arith),
      (not-Hit_iff cfg.exclude_namespaces k8s.namespace).0 (ground arith),
      (selectors_iff k8s.labels (filter_map parse_selector cfg.label_selectors)).0 (ground arith),
    ),
    λ (inc, exc, sel).
        rw
          (
            (required_iff cfg.include_namespaces k8s.namespace).1 inc,
            (not-Hit_iff cfg.exclude_namespaces k8s.namespace).1 exc,
          )
          ((selectors_iff k8s.labels (filter_map parse_selector cfg.label_selectors)).1 sel),
  )

  module _ {J : Type 0} (cfg : ScopeConfig) (event : NormalizedEvent J) where
    -- The filter built from a configuration allows an event exactly when no exclude pattern hits
    -- its binary, a target pattern hits it or no target pattern compiles, and, for a Kubernetes
    -- event, its namespace is included (or no include pattern compiles) and not excluded, and every
    -- well-formed label selector is among its labels.
    pub allows_iff : (allows g (new g cfg) event ≡ true) ↔ InScope cfg event
    unfolding allows new
    allows_iff = (
      λ h. record {
        not_excluded = (not-Hit_iff cfg.exclude_processes event.process.binary).0 (ground arith);
        targeted = (required_iff cfg.targets event.process.binary).0 (ground arith);
        k8s = (k8s_iff cfg event.k8s).0 (unfold new in ground arith);
      },
      λ s.
          rw
            (
              (not-Hit_iff cfg.exclude_processes event.process.binary).1 s.not_excluded,
              (required_iff cfg.targets event.process.binary).1 s.targeted,
            )
            ((k8s_iff cfg event.k8s).1 s.k8s),
    )
