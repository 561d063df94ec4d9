-- ===== src/Advisor/Firing.antt =====
-- When the advisor stages rules, and how often.
use vector_guard.Prelude.{
  Bool, Bool-cases, Option, [], ap, arith, false, if◌then◌else◌, inl, inr, insert, lookup,
  lookup-insert, ltb, none, not, refl, some, subst, sym, true, unwrap_or, ℕ, ◌-◌, ◌∙◌, ◌≡◌, ◌≢◌,
  ◌≤◌,
}
use vector_guard.Config.{AiAdvisorConfig}
use vector_guard.Event.{NormalizedEvent, is_incident}
use vector_guard.Advisor.{
  PatternKey, key_eq, pattern_key, secs, count_of, cooling, Advisor, Outside, admit, update_config,
  trigger, analyze_key, analyze,
}
use vector_guard.Advisor.Counting.{key_eq_iff}

module _ {J : Type 0} (o : Outside J) (a : Advisor J) (event : NormalizedEvent J) where
  -- The pattern of an incident was counted often enough, and its cooldown is over.
  pub record Triggers (key : PatternKey) : Type 0 where
    pub enabled : a.cfg.enabled ≡ true
    pub incident : is_incident event.action ≡ true
    pub has_pattern : pattern_key event ≡ some key
    pub enough : a.cfg.trigger_threshold ≤ count_of (admit o.now key event a).counts key
    pub cooled : cooling o.now a.cfg.cooldown_seconds (lookup key_eq key a.cooldowns) ≡ false

  abbrev pub Stages : Type 0
  Stages = (analyze o a event).1 ≢ []

  cfg-admit : (k : PatternKey) → (admit o.now k event a).cfg ≡ a.cfg
  unfolding admit
  cfg-admit k = refl

  cooldowns-admit : (k : PatternKey) → (admit o.now k event a).cooldowns ≡ a.cooldowns
  unfolding admit
  cooldowns-admit k = refl

  trigger→ :
      (k : PatternKey) (b : Advisor J)
      → (trigger o k b).1 ≢ []
      → (b.cfg.trigger_threshold ≤ count_of b.counts k)
        × (cooling o.now b.cfg.cooldown_seconds (lookup key_eq k b.cooldowns) ≡ false)
        × ((trigger o k b).0.cooldowns ≡ insert key_eq k o.now b.cooldowns)
  trigger→ k b n = elim (Bool-cases (ltb (count_of b.counts k) b.cfg.trigger_threshold)) [
    | inl e ↦ absurd (n (rw e refl))
    | inr e ↦
        elim (Bool-cases (cooling o.now b.cfg.cooldown_seconds (lookup key_eq k b.cooldowns))) [
          | inl c ↦ absurd (n (rw (e, c) refl))
          | inr c ↦ (ground arith, c, rw (e, c) refl)
        ]
  ]

  staged→ :
      Stages
      → (key : PatternKey) × Triggers key
        × ((analyze o a event).0.cooldowns ≡ insert key_eq key o.now a.cooldowns)
  unfolding analyze
  staged→ n = go a.cfg.enabled (is_incident event.action) (pattern_key event) refl refl refl n
    where
      go :
          (b c : Bool) (k : Option PatternKey)
          → a.cfg.enabled ≡ b
          → is_incident event.action ≡ c
          → pattern_key event ≡ k
          → (if not b then (a, []) else if not c then (a, []) else analyze_key o event a k).1 ≢ []
          → (key : PatternKey) × Triggers key
            × ((if not b
                  then (a, [])
                  else if not c
                  then (a, [])
                  else analyze_key o event a k).0.cooldowns
                ≡ insert key_eq key o.now a.cooldowns)
      go false c k eb ec ek n = absurd (n refl)
      go true false k eb ec ek n = absurd (n refl)
      go true true none eb ec ek n = absurd (n refl)
      go true true (some k) eb ec ek n =
          let (enough, cooled, set) = trigger→ k (admit o.now k event a) n in
          (
            k,
            record {
              enabled = eb;
              incident = ec;
              has_pattern = ek;
              enough =
                  subst (λ c. c.trigger_threshold ≤ count_of (admit o.now k event a).counts k)
                    (cfg-admit k) enough;
              cooled =
                  subst
                    (λ c. cooling o.now c.cooldown_seconds (lookup key_eq k a.cooldowns) ≡ false)
                    (cfg-admit k)
                    (subst
                      (λ d.
                        cooling o.now (admit o.now k event a).cfg.cooldown_seconds
                          (lookup key_eq k d)
                        ≡ false)
                      (cooldowns-admit k) cooled);
            },
            set ∙ ap (insert key_eq k o.now) (cooldowns-admit k),
          )

module _ {J : Type 0} where
  -- Calls of `analyze` at times from `start` on, and reloads of the configuration.
  pub data Run (start : ℕ) (a : Advisor J) : Advisor J → Type 0 where
    here : Run start a a
    next :
        {b : Advisor J} (o : Outside J) (event : NormalizedEvent J)
        → Run start a b
        → start ≤ o.now
        → Run start a (analyze o b event).0
    configure :
        {b : Advisor J} (cfg : AiAdvisorConfig) → Run start a b → Run start a (update_config b cfg)

  -- The cooldown of a key that was set at `start` or later.
  abbrev pub SetSince : ℕ → PatternKey → Advisor J → Type 0
  SetSince start key b = (t : ℕ) × (lookup key_eq key b.cooldowns ≡ some t) × (start ≤ t)

  trigger-SetSince :
      (start : ℕ) (key k : PatternKey) (o : Outside J) (b : Advisor J)
      → start ≤ o.now
      → SetSince start key b
      → SetSince start key (trigger o k b).0
  trigger-SetSince start key k o b later s =
      elim (Bool-cases (ltb (count_of b.counts k) b.cfg.trigger_threshold)) [
        | inl e ↦ rw e s
        | inr e ↦
            elim (Bool-cases (cooling o.now b.cfg.cooldown_seconds (lookup key_eq k b.cooldowns))) [
              | inl c ↦ rw (e, c) s
              | inr c ↦ rw (e, c) inserted
            ]
      ]
    where
      inserted :
          (t : ℕ) × (lookup key_eq key (insert key_eq k o.now b.cooldowns) ≡ some t) × (start ≤ t)
      inserted = elim (Bool-cases (key_eq k key)) [
        | inl q ↦
            (o.now, rw (lookup-insert key_eq key_eq_iff k key o.now b.cooldowns, q) refl, later)
        | inr q ↦ (s.0, rw (lookup-insert key_eq key_eq_iff k key o.now b.cooldowns, q) s.1, s.2)
      ]

  analyze-SetSince :
      (start : ℕ) (key : PatternKey) (o : Outside J) (b : Advisor J) (event : NormalizedEvent J)
      → start ≤ o.now
      → SetSince start key b
      → SetSince start key (analyze o b event).0
  unfolding analyze admit
  analyze-SetSince start key o b event later s =
      go b.cfg.enabled (is_incident event.action) (pattern_key event)
    where
      go :
          (x y : Bool) (k : Option PatternKey)
          → SetSince start key
              (if not x then (b, []) else if not y then (b, []) else analyze_key o event b k).0
      go false y k = s
      go true false k = s
      go true true none = s
      go true true (some k) = trigger-SetSince start key k o (admit o.now k event b) later s

  Run-SetSince :
      {start : ℕ} {a b : Advisor J} (key : PatternKey)
      → SetSince start key a
      → Run start a b
      → SetSince start key b
  Run-SetSince key s here = s
  Run-SetSince {start} key s (next {b} o event r later) =
      analyze-SetSince start key o b event later (Run-SetSince key s r)
  Run-SetSince key s (configure cfg r) = Run-SetSince key s r

  -- Two calls that stage rules for the same pattern are at least the cooldown of the later one apart,
  -- whatever calls and reloads of the configuration lie between them, if no call between them is at
  -- a time before the first.
  pub cooldown_respected :
      (o1 o2 : Outside J) (a b : Advisor J) (e1 e2 : NormalizedEvent J)
      → Stages o1 a e1
      → Run o1.now (analyze o1 a e1).0 b
      → Stages o2 b e2
      → pattern_key e1 ≡ pattern_key e2
      → secs b.cfg.cooldown_seconds ≤ o2.now - o1.now
  cooldown_respected o1 o2 a b e1 e2 first run second same =
      let (k1, t1, set) = staged→ o1 a e1 first in
      let (k2, t2, _) = staged→ o2 b e2 second in
      let p : some k1 ≡ some k2 = sym t1.has_pattern ∙ same ∙ t2.has_pattern in
      let keys : k1 ≡ k2 = ap (λ x. unwrap_or x k1) p in
      let start : SetSince o1.now k1 (analyze o1 a e1).0 = (
        o1.now,
        ap (lookup key_eq k1) set
            ∙ lookup-insert key_eq key_eq_iff k1 k1 o1.now a.cooldowns
            ∙ ap (λ x. if x then some o1.now else lookup key_eq k1 a.cooldowns)
                ((key_eq_iff k1 k1).1 refl),
        omega arith,
      ) in
      let (t, there, later) = Run-SetSince k1 start run in
      let there2 : lookup key_eq k2 b.cooldowns ≡ some t =
        subst (λ x. lookup key_eq x b.cooldowns ≡ some t) keys there in
      let cooled : cooling o2.now b.cfg.cooldown_seconds (some t) ≡ false =
        subst (λ x. cooling o2.now b.cfg.cooldown_seconds x ≡ false) there2 t2.cooled in
      ground arith
