-- ===== src/Pipeline/Startup.antt =====
-- The start of the daemon in `main` of vectorguard/src/main.rs: the state of the two tasks that it
-- builds from the configuration.
use vector_guard.Prelude.{All, Bool, List, Option, Text, [], true, ◌≡◌, ◌≢◌}
use vector_guard.Event.{Action}
use vector_guard.Config.{Config, DefaultAction, FastPathConfig}
use vector_guard.Float.{Float}
use vector_guard.Glob.{Glob}
use vector_guard.Rules.{RuleAction, RuleSet}
use vector_guard.Rules.Load.{DirEntry, load_dir}
use vector_guard.Scope
use vector_guard.FastPath
use vector_guard.FastPath.{FastPath, default_to_action}
use vector_guard.Incident.{Channel}
use vector_guard.Advisor
use vector_guard.SlowPath
use vector_guard.SlowPath.Embedder.Providers.{dim_of, provider_of}
use vector_guard.Pipeline.{State}

-- The channel of `IncidentLogger::new`.
abbrev pub new_channel : Channel
new_channel = record { pending = []; open_end = true }

module _ (f : Float) (g : Glob) (J : Type 0) where
  -- `var` is the environment, `reply` whether Qdrant answers.
  unfoldable pub started :
      (Text → Option RuleSet)
      → (Text → Option (List DirEntry))
      → (Text → Option Text)
      → Config f.F
      → Bool
      → State f g J
  started parse read_dir var cfg reply = record {
    scope_filter = Scope.new g cfg.scope;
    fast_path = FastPath.new parse read_dir cfg.fast_path;
    ai_advisor = Advisor.new cfg.ai_advisor cfg.fast_path.rules_path;
    log = new_channel;
    slow_queue = [];
    slow_open = true;
    slow_drops = 0;
    sent = [];
    proc_open = true;
    slow_path =
        SlowPath.new f cfg.slow_path (dim_of (provider_of cfg.slow_path.embedder var)) reply;
  }

module _ (parse : Text → Option RuleSet) (read_dir : Text → Option (List DirEntry))
    (cfg : FastPathConfig) where
  -- The fast path is on, and none of the rules that are loaded has the action `allow`.
  pub record Strict : Type 0 where
    pub enabled : cfg.enabled ≡ true
    pub no_allow :
        All (λ r. r.action ≢ RuleAction.allow) (load_dir parse (read_dir cfg.rules_path)).rules

-- A fast path that lets no event pass as Allowed.
pub record Decisive (fp : FastPath) : Type 0 where
  pub enabled : fp.enabled ≡ true
  pub default : fp.default_action ≢ Action.allowed
  pub no_allow : All (λ r. r.action ≢ RuleAction.allow) fp.rule_set.rules

default-ne-allowed : (d : DefaultAction) → default_to_action d ≢ Action.allowed
default-ne-allowed DefaultAction.block e = cc
default-ne-allowed DefaultAction.alert e = cc
default-ne-allowed DefaultAction.log e = cc

pub new-Decisive :
    (parse : Text → Option RuleSet) (read_dir : Text → Option (List DirEntry))
    (cfg : FastPathConfig)
    → Strict parse read_dir cfg
    → Decisive (FastPath.new parse read_dir cfg)
unfolding FastPath.new
new-Decisive parse read_dir cfg s = record {
  enabled = s.enabled;
  default = default-ne-allowed cfg.default_action;
  no_allow = s.no_allow;
}
