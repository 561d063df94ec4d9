-- ===== src/Advisor.antt =====
-- vectorguard/src/ai_advisor/mod.rs: the advisor that asks a language model for rules when a
-- pattern of incidents recurs. Times are in nanoseconds; the request to the provider, the TOML parser
-- and the store of proposals are arguments.
pub mod Counting
pub mod Firing
pub mod Reply
use vector_guard.Prelude.{
  Bool, List, Option, Text, [], false, filter, if◌then◌else◌, insert, is_empty, lookup, ltb, map,
  map_opt, none, not, remove, reverse, show_nat, some, take, text_eq, unwrap_or, ℕ, ◌%◌, ◌&&◌, ◌*◌,
  ◌++◌, ◌+◌, ◌-◌, ◌==◌, ◌^◌, ◌∷◌,
}
use vector_guard.Config.{AiAdvisorConfig}
use vector_guard.Event.{EventType, NormalizedEvent, is_incident}
use vector_guard.Incident.{action_name}
use vector_guard.Rules.{Rule, RuleSet}

pub record PatternKey : Type 0 where
  pub binary : Text
  pub detail : Text
  pub action : Text

-- The derived equality.
unfoldable pub key_eq : PatternKey → PatternKey → Bool
key_eq a b = text_eq a.binary b.binary && (text_eq a.detail b.detail && text_eq a.action b.action)

abbrev pub detail_of : EventType → Text → Option Text
detail_of (EventType.file_access path flags) binary = some path
detail_of (EventType.network direction ip port proto) binary = some (show_nat port)
detail_of EventType.exec binary = some binary
detail_of (EventType.privilege syscall capability) binary = none
detail_of (EventType.signal signum target) binary = none

-- `AiAdvisor::pattern_key`
unfoldable pub pattern_key : {J : Type 0} → NormalizedEvent J → Option PatternKey
pattern_key event =
    map_opt
      (λ d. record { binary = event.process.binary; detail = d; action = action_name event.action })
      (detail_of event.event_type event.process.binary)

-- Seconds in nanoseconds.
abbrev pub secs : ℕ → ℕ
secs n = n * 1_000_000_000

abbrev pub Counts : Type 0
Counts = List (PatternKey × ℕ)

abbrev pub count_of : Counts → PatternKey → ℕ
count_of counts key = unwrap_or (lookup key_eq key counts) 0

-- `if let Some(c) = counts.get_mut(key) { saturating_sub; remove at zero }`
abbrev pub decrement : Counts → PatternKey → Option ℕ → Counts
decrement counts key none = counts
decrement counts key (some c) =
    if c - 1 == 0 then remove key_eq key counts else insert key_eq key (c - 1) counts

abbrev pub forget : Counts → Option PatternKey → Counts
forget counts none = counts
forget counts (some key) = decrement counts key (lookup key_eq key counts)

-- `*counts.entry(key).or_insert(0) += 1`, at 32 bits.
abbrev pub increment : Counts → PatternKey → Counts
increment counts key = insert key_eq key ((count_of counts key + 1) % 2 ^ 32) counts

module _ {J : Type 0} where
  -- The eviction loop: entries older than the window leave from the front.
  unfoldable pub evict :
      ℕ → ℕ → List (ℕ × NormalizedEvent J) → Counts → List (ℕ × NormalizedEvent J) × Counts
  evict now dur [] counts = ([], counts)
  evict now dur ((ts, event) ∷ window) counts =
      let rest = evict now dur window (forget counts (pattern_key event)) in
      if ltb dur (now - ts) then rest else ((ts, event) ∷ window, counts)

pub record Advisor (J : Type 0) : Type 0 where
  pub cfg : AiAdvisorConfig
  pub rules_path : Text
  pub window : List (ℕ × NormalizedEvent J)
  pub counts : Counts
  pub cooldowns : List (PatternKey × ℕ)

-- What one call of `analyze` reads outside: the clock, the API key in the environment, the reply of
-- the provider to the events handed over (the TOML block extracted from it), the parser, and
-- whether a rule could be staged.
pub record Outside (J : Type 0) : Type 0 where
  pub now : ℕ
  pub api_key : Option Text
  pub ask : List (NormalizedEvent J) → Option Text
  pub parse : Text → Option RuleSet
  pub stage : Rule → Bool

-- Still within the cooldown of the last trigger.
abbrev pub cooling : ℕ → ℕ → Option ℕ → Bool
cooling now cooldown none = false
cooling now cooldown (some last) = ltb (now - last) (secs cooldown)

-- `resolve_api_key`, and what the environment holds under the name.
abbrev pub usable : AiAdvisorConfig → Option Text → Option Text
usable cfg none = none
usable cfg (some value) =
    if is_empty cfg.api_key_env then none else if is_empty value then none else some value

module _ {J : Type 0} where
  -- `AiAdvisor::new`
  abbrev pub new : AiAdvisorConfig → Text → Advisor J
  new cfg rules_path = record {
    cfg = cfg;
    rules_path = rules_path;
    window = [];
    counts = [];
    cooldowns = [];
  }

  -- `AiAdvisor::update_config`
  abbrev pub update_config : Advisor J → AiAdvisorConfig → Advisor J
  update_config a cfg = record a { cfg = cfg }

  -- An event enters the window: eviction, then the new entry and its count.
  unfoldable pub admit : ℕ → PatternKey → NormalizedEvent J → Advisor J → Advisor J
  unfolding evict
  admit now key event a =
      let (window, counts) = evict now (secs a.cfg.window_secs) a.window a.counts in
      record a { window = window ++ (now, event) ∷ []; counts = increment counts key }

  -- The events handed to the provider, most recent first.
  abbrev pub context_of : Advisor J → List (NormalizedEvent J)
  context_of a = take a.cfg.context_window_size (map (λ e. e.1) (reverse a.window))

  abbrev pub proposals : Advisor J → Option RuleSet → List Rule
  proposals a none = []
  proposals a (some rs) = take a.cfg.max_rules_per_fire rs.rules

  abbrev pub parse_reply : Outside J → Option Text → Option RuleSet
  parse_reply o none = none
  parse_reply o (some toml) = o.parse toml

  -- From the API key to the rules that were staged.
  abbrev pub fire : Outside J → Advisor J → Option Text → List Rule
  fire o a none = []
  fire o a (some key) = filter o.stage (proposals a (parse_reply o (o.ask (context_of a))))

  -- After the count: the threshold, the cooldown, and the request.
  abbrev pub trigger : Outside J → PatternKey → Advisor J → Advisor J × List Rule
  trigger o key a =
      if ltb (count_of a.counts key) a.cfg.trigger_threshold
      then (a, [])
      else if cooling o.now a.cfg.cooldown_seconds (lookup key_eq key a.cooldowns)
      then (a, [])
      else (
        record a { cooldowns = insert key_eq key o.now a.cooldowns },
        fire o a (usable a.cfg o.api_key),
      )

  abbrev pub analyze_key :
      Outside J → NormalizedEvent J → Advisor J → Option PatternKey → Advisor J × List Rule
  analyze_key o event a none = (a, [])
  analyze_key o event a (some key) = trigger o key (admit o.now key event a)

  -- `AiAdvisor::analyze`: the advisor afterwards, and the rules that it staged.
  unfoldable pub analyze : Outside J → Advisor J → NormalizedEvent J → Advisor J × List Rule
  analyze o a event =
      if not a.cfg.enabled
      then (a, [])
      else if not (is_incident event.action)
      then (a, [])
      else analyze_key o event a (pattern_key event)
