-- ===== src/Advisor/Counting.antt =====
-- The counts of the advisor are the numbers of entries in its window.
use vector_guard.Prelude.{
  Bool, Bool-cases, List, Option, [], ap, arith, false, if◌then◌else◌, inl, inr, length, lookup,
  lookup-insert, lookup-remove, ltb, none, not, refl, some, subst, text_eq_iff, text_eq_refl, true,
  ℕ, ◌++◌, ◌+◌, ◌-◌, ◌<◌, ◌==◌, ◌^◌, ◌↔◌, ◌∷◌, ◌≡◌, ◌≤◌,
}
use vector_guard.Event.{NormalizedEvent}
use vector_guard.Advisor.{
  PatternKey, key_eq, pattern_key, secs, Counts, count_of, decrement, forget, increment, evict,
  Advisor, admit, Outside, analyze, analyze_key, trigger, is_incident, cooling,
}

pub key_eq_iff : (a b : PatternKey) → (key_eq a b ≡ true) ↔ (a ≡ b)
unfolding key_eq
key_eq_iff a b = (
  λ h.
      let p : a.binary ≡ b.binary = (text_eq_iff a.binary b.binary).0 (ground arith) in
      let q : a.detail ≡ b.detail = (text_eq_iff a.detail b.detail).0 (ground arith) in
      let r : a.action ≡ b.action = (text_eq_iff a.action b.action).0 (ground arith) in
      λ i. record { binary = p i; detail = q i; action = r i },
  λ e.
      subst (λ c. key_eq a c ≡ true) e
        (ground (arith, text_eq_refl a.binary, text_eq_refl a.detail, text_eq_refl a.action)),
)

-- One if the event has the key.
abbrev pub has_key : PatternKey → Option PatternKey → ℕ
has_key key none = 0
has_key key (some k) = if key_eq k key then 1 else 0

has_key-le-one : (key : PatternKey) (o : Option PatternKey) → has_key key o ≤ 1
has_key-le-one key none = omega arith
has_key-le-one key (some k) = ground arith

count_of-forget :
    (counts : Counts) (o : Option PatternKey) (key : PatternKey)
    → count_of (forget counts o) key ≡ count_of counts key - has_key key o
count_of-forget counts none key = omega arith
count_of-forget counts (some k) key = go (lookup key_eq k counts) refl
  where
    go :
        (c : Option ℕ)
        → lookup key_eq k counts ≡ c
        → count_of (decrement counts k c) key
          ≡ count_of counts key - (if key_eq k key then 1 else 0)
    go none e = elim (Bool-cases (key_eq k key)) [
      | inl q ↦
          let same : k ≡ key = (key_eq_iff k key).0 q in
          let absent : lookup key_eq key counts ≡ none =
            subst (λ x. lookup key_eq x counts ≡ none) same e in
          rw (q, absent) refl
      | inr q ↦ rw q (omega arith)
    ]
    go (some c) e = elim (Bool-cases (key_eq k key)) [
      | inl q ↦
          let same : k ≡ key = (key_eq_iff k key).0 q in
          let there : lookup key_eq key counts ≡ some c =
            subst (λ x. lookup key_eq x counts ≡ some c) same e in
          elim (Bool-cases (c - 1 == 0)) [
            | inl z ↦ rw (z, lookup-remove key_eq key_eq_iff k key counts, q, there) (ground arith)
            | inr z ↦ rw (z, lookup-insert key_eq key_eq_iff k key (c - 1) counts, q, there) refl
          ]
      | inr q ↦ elim (Bool-cases (c - 1 == 0)) [
        | inl z ↦ rw (z, lookup-remove key_eq key_eq_iff k key counts, q) (omega arith)
        | inr z ↦ rw (z, lookup-insert key_eq key_eq_iff k key (c - 1) counts, q) (omega arith)
      ]
    ]

module _ {J : Type 0} where
  -- The entries of a window that have a key.
  abbrev pub occurrences : PatternKey → List (ℕ × NormalizedEvent J) → ℕ
  occurrences key [] = 0
  occurrences key ((ts, event) ∷ window) = has_key key (pattern_key event) + occurrences key window

  occurrences-append :
      (key : PatternKey) (xs ys : List (ℕ × NormalizedEvent J))
      → occurrences key (xs ++ ys) ≡ occurrences key xs + occurrences key ys
  occurrences-append key [] ys = omega arith
  occurrences-append key ((ts, event) ∷ xs) ys = omega (arith, occurrences-append key xs ys)

  occurrences-le-length :
      (key : PatternKey) (window : List (ℕ × NormalizedEvent J))
      → occurrences key window ≤ length window
  occurrences-le-length key [] = omega arith
  occurrences-le-length key ((ts, event) ∷ window) =
      omega (arith, occurrences-le-length key window, has_key-le-one key (pattern_key event))

  -- The counts of the keys are their numbers of entries.
  abbrev pub Counted : List (ℕ × NormalizedEvent J) → Counts → Type 0
  Counted window counts = (key : PatternKey) → count_of counts key ≡ occurrences key window

  evict-Counted :
      (now dur : ℕ) (window : List (ℕ × NormalizedEvent J)) (counts : Counts)
      → Counted window counts
      → Counted (evict now dur window counts).0 (evict now dur window counts).1
  unfolding evict
  evict-Counted now dur [] counts h = h
  evict-Counted now dur ((ts, event) ∷ window) counts h = elim (Bool-cases (ltb dur (now - ts))) [
    | inl e ↦ rw e (
        evict-Counted now dur window (forget counts (pattern_key event))
          (λ key. omega (arith, h key, count_of-forget counts (pattern_key event) key)))
    | inr e ↦ rw e h
  ]

  length-evict :
      (now dur : ℕ) (window : List (ℕ × NormalizedEvent J)) (counts : Counts)
      → length (evict now dur window counts).0 ≤ length window
  unfolding evict
  length-evict now dur [] counts = omega arith
  length-evict now dur ((ts, event) ∷ window) counts = elim (Bool-cases (ltb dur (now - ts))) [
    | inl e ↦ rw e (omega (arith, length-evict now dur window (forget counts (pattern_key event))))
    | inr e ↦ rw e (omega arith)
  ]

  increment-Counted :
      (ts : ℕ) (event : NormalizedEvent J) (k : PatternKey) (window : List (ℕ × NormalizedEvent J))
      (counts : Counts)
      → pattern_key event ≡ some k
      → length window + 1 < 2 ^ 32
      → Counted window counts
      → Counted (window ++ (ts, event) ∷ []) (increment counts k)
  increment-Counted ts event k window counts e small h key = elim (Bool-cases (key_eq k key)) [
    | inl q ↦
        let same : k ≡ key = (key_eq_iff k key).0 q in
        rw
          (
            lookup-insert key_eq key_eq_iff k key _ counts,
            q,
            occurrences-append key window ((ts, event) ∷ []),
            e,
            q,
          )
          (omega (arith, h k, ap (λ x. occurrences x window) same, occurrences-le-length k window))
    | inr q ↦
        rw
          (
            lookup-insert key_eq key_eq_iff k key _ counts,
            q,
            occurrences-append key window ((ts, event) ∷ []),
            e,
            q,
          )
          (omega (arith, h key))
  ]

  pub admit-Counted :
      (now : ℕ) (k : PatternKey) (event : NormalizedEvent J) (a : Advisor J)
      → pattern_key event ≡ some k
      → length a.window + 1 < 2 ^ 32
      → Counted a.window a.counts
      → Counted (admit now k event a).window (admit now k event a).counts
  unfolding admit
  admit-Counted now k event a e small h =
      increment-Counted now event k _ _ e
        (omega (arith, length-evict now (secs a.cfg.window_secs) a.window a.counts))
        (evict-Counted now (secs a.cfg.window_secs) a.window a.counts h)

  trigger-window :
      (o : Outside J) (k : PatternKey) (a : Advisor J)
      → ((trigger o k a).0.window ≡ a.window) × ((trigger o k a).0.counts ≡ a.counts)
  trigger-window o k a = elim (Bool-cases (ltb (count_of a.counts k) a.cfg.trigger_threshold)) [
    | inl e ↦ rw e (refl, refl)
    | inr e ↦
        elim (Bool-cases (cooling o.now a.cfg.cooldown_seconds (lookup key_eq k a.cooldowns))) [
          | inl c ↦ rw (e, c) (refl, refl)
          | inr c ↦ rw (e, c) (refl, refl)
        ]
  ]

  -- Through every call of `analyze`, whatever it finds, the count of each pattern stays the number of
  -- entries of the window with that pattern, as long as the window has less than 2 ^ 32 - 1 entries.
  pub analyze-Counted :
      (o : Outside J) (a : Advisor J) (event : NormalizedEvent J)
      → length a.window + 1 < 2 ^ 32
      → Counted a.window a.counts
      → Counted (analyze o a event).0.window (analyze o a event).0.counts
  unfolding analyze
  analyze-Counted o a event small h =
      go a.cfg.enabled (is_incident event.action) (pattern_key event) refl
    where
      go :
          (b c : Bool) (k : Option PatternKey)
          → pattern_key event ≡ k
          → let r =
              (if not b then (a, []) else if not c then (a, []) else analyze_key o event a k) in
            Counted r.0.window r.0.counts
      go false c k e = h
      go true false k e = h
      go true true none e = h
      go true true (some k) e =
          let (w, c) = trigger-window o k (admit o.now k event a) in
          rw (w, c) (admit-Counted o.now k event a e small h)
