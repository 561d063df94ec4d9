-- ===== src/Config.antt =====
-- vectorguard/src/config.rs: the parts of the configuration that the components read.
-- `F` is the type of 32-bit floats.
use vector_guard.Prelude.{Bool, List, Option, Text, [], codes, false, ℕ, ◌∷◌}

pub record ScopeConfig : Type 0 where
  pub targets : List Text
  pub exclude_processes : List Text
  pub include_namespaces : List Text
  pub exclude_namespaces : List Text
  pub label_selectors : List Text

pub data AdapterBackend : Type 0 where
  tetragon falco auditd native_ebpf : AdapterBackend

pub data DefaultAction : Type 0 where
  block alert log : DefaultAction

pub record FastPathConfig : Type 0 where
  pub enabled : Bool
  pub rules_path : Text
  pub default_action : DefaultAction

pub data EmbedderBackend : Type 0 where
  local openai voyage gemini : EmbedderBackend

pub record EmbedderConfig : Type 0 where
  pub backend : EmbedderBackend
  pub model : Text
  pub api_key_env : Text
  pub endpoint : Option Text

pub data VectorDbBackend : Type 0 where
  qdrant usearch : VectorDbBackend

pub record VectorDbConfig : Type 0 where
  pub backend : VectorDbBackend
  pub url : Text
  pub collection : Text

pub record SlowPathConfig (F : Type 0) : Type 0 where
  pub enabled : Bool
  pub time_window_secs : ℕ
  pub similarity_threshold : F
  pub embedder : EmbedderConfig
  pub vectordb : VectorDbConfig

pub data AiProvider : Type 0 where
  anthropic openai : AiProvider

pub data ApprovalMode : Type 0 where
  manual auto : ApprovalMode

pub record AiAdvisorConfig : Type 0 where
  pub enabled : Bool
  pub provider : AiProvider
  pub api_key_env : Text
  pub model : Text
  pub trigger_threshold : ℕ
  pub cooldown_seconds : ℕ
  pub context_window_size : ℕ
  pub window_secs : ℕ
  pub max_rules_per_fire : ℕ
  pub approval_mode : ApprovalMode
  pub pending_dir : Text
  pub approval_ttl_secs : ℕ
  pub reaper_interval_secs : ℕ

-- `AiAdvisorConfig::default`
abbrev pub default_advisor : AiAdvisorConfig
default_advisor = record {
  enabled = false;
  provider = AiProvider.anthropic;
  api_key_env = [];
  model = [];
  trigger_threshold = 3;
  cooldown_seconds = 300;
  context_window_size = 20;
  window_secs = 60;
  max_rules_per_fire = 3;
  approval_mode = ApprovalMode.manual;
  pending_dir = codes "/etc/vectorguard/pending";
  approval_ttl_secs = 600;
  reaper_interval_secs = 60;
}

pub record Config (F : Type 0) : Type 0 where
  pub hot_reload : Bool
  pub scope : ScopeConfig
  pub backend : AdapterBackend
  pub fast_path : FastPathConfig
  pub slow_path : SlowPathConfig F
  pub ai_advisor : AiAdvisorConfig

-- `default_exclude_processes`, the default of `ScopeConfig.exclude_processes`
abbrev pub default_exclude_processes : List Text
default_exclude_processes =
    codes "systemd-journald"
    ∷ codes "journald"
    ∷ codes "systemd"
    ∷ codes "sd-journal"
    ∷ codes "kworker*"
    ∷ codes "kthread*"
    ∷ codes "ksoftirqd*"
    ∷ codes "migration*"
    ∷ []
