-- ===== src/Samples/Tasks.antt =====
-- The pipeline and its worker on concrete events.
use vector_guard.Prelude.{
  List, Option, Text, [], arith, codes, length, none, refl, some, text_eq, true, ℕ, ◌++◌, ◌∷◌, ◌≡◌,
  ◌⊎◌,
}
use vector_guard.Event.{Action, EventType, NormalizedEvent}
use vector_guard.Config.{
  AdapterBackend, Config, DefaultAction, EmbedderBackend, ScopeConfig, VectorDbBackend,
  default_advisor,
}
use vector_guard.Float.{whole}
use vector_guard.Glob.{literal_glob}
use vector_guard.FastPath.{FastPath}
use vector_guard.Scope
use vector_guard.Advisor
use vector_guard.Incident.{Channel, IncidentRecord, record_event}
use vector_guard.Incident.Queue.{Queued, record_event_queues}
use vector_guard.Pipeline.{State, Surroundings, on_event, run, work}
use vector_guard.Pipeline.Forwarding.{decisions, run-sent}
use vector_guard.Pipeline.Backlog.{QueueAfter, run-backlog}
use vector_guard.Rules.Load.{DirEntry, load_dir, builtin_rules}
use vector_guard.Pipeline.Startup.{Strict, started}
use vector_guard.Samples.Approvals.{parse}
use vector_guard.Pipeline.Worker.{event_step, start, worker_silent}
use vector_guard.Samples.{bash_connects, event_of, two_rules}
use vector_guard.Samples.Vectors.{sample_services, sample_slow_path}
use vector_guard.Samples.Advice.{outside_at}

abbrev to_json : IncidentRecord → Option Text
to_json r = some r.binary

abbrev waiting : Channel
waiting = record { pending = []; open_end = true }

abbrev blocked : NormalizedEvent Unit
blocked = event_of (codes "nc") EventType.exec Action.blocked

record_event_queues_example :
    ((record_event to_json true waiting blocked).0 ≡ waiting)
    ⊎ ((line : Text) × Queued to_json true waiting blocked line
        × ((record_event to_json true waiting blocked).0
            ≡ record waiting { pending = [] ++ line ∷ [] }))
record_event_queues_example = record_event_queues to_json true waiting blocked

abbrev bash_only : ScopeConfig
bash_only = record {
  targets = codes "bash" ∷ [];
  exclude_processes = [];
  include_namespaces = [];
  exclude_namespaces = [];
  label_selectors = [];
}

abbrev decider : FastPath
decider = record { rule_set = two_rules; default_action = Action.logged; enabled = true }

abbrev initial : State whole literal_glob Unit
initial = record {
  scope_filter = Scope.new literal_glob bash_only;
  fast_path = decider;
  ai_advisor = Advisor.new default_advisor (codes "/rules");
  log = waiting;
  slow_queue = [];
  slow_open = true;
  slow_drops = 0;
  sent = [];
  proc_open = true;
  slow_path = sample_slow_path;
}

abbrev around : Surroundings whole literal_glob Unit
around = record { to_json = to_json; locked = true; advice = outside_at 0 }

abbrev inputs : List (Surroundings whole literal_glob Unit × NormalizedEvent Unit)
inputs = (around, bash_connects) ∷ (around, blocked) ∷ []

run-sent_example :
    (run whole literal_glob Unit inputs initial).sent
    ≡ [] ++ decisions initial.scope_filter initial.fast_path inputs
run-sent_example = run-sent inputs initial refl

run_decisions : length (decisions {f = whole} initial.scope_filter initial.fast_path inputs) ≡ 1
unfolding Scope.allows Scope.new text_eq
run_decisions = refl

run-backlog_example :
    QueueAfter [] 0
      (decisions initial.scope_filter initial.fast_path inputs)
      (run whole literal_glob Unit inputs initial).slow_queue
      (run whole literal_glob Unit inputs initial).slow_drops
run-backlog_example = run-backlog inputs initial refl refl (omega arith)

-- The built-in rules, and a slow path on Qdrant.
abbrev config : Config ℕ
config = record {
  hot_reload = true;
  scope = bash_only;
  backend = AdapterBackend.native_ebpf;
  fast_path = record {
    enabled = true;
    rules_path = codes "/rules";
    default_action = DefaultAction.log;
  };
  slow_path = record {
    enabled = true;
    time_window_secs = 60;
    similarity_threshold = 0;
    embedder = record {
      backend = EmbedderBackend.local;
      model = [];
      api_key_env = [];
      endpoint = none;
    };
    vectordb = record {
      backend = VectorDbBackend.qdrant;
      url = codes "http://localhost:6333";
      collection = codes "baseline";
    };
  };
  ai_advisor = default_advisor;
}

abbrev no_directory : Text → Option (List DirEntry)
no_directory path = none

strict : Strict parse no_directory config.fast_path
unfolding load_dir builtin_rules
strict = record { enabled = refl; no_allow = (λ e. cc, (λ e. cc, (λ e. cc, (λ e. cc, tt)))) }

-- The daemon after its start and one event.
abbrev one_seen : State whole literal_glob Unit
one_seen =
    (on_event whole literal_glob Unit around
      (started whole literal_glob Unit parse no_directory (λ name. none) config true)
      bash_connects).0

worker_silent_example :
    (work whole literal_glob Unit sample_services around one_seen).log ≡ one_seen.log
worker_silent_example =
    worker_silent whole literal_glob Unit sample_services around one_seen
      (event_step around bash_connects (start parse no_directory (λ name. none) config true strict))

run_waits : length one_seen.slow_queue ≡ 1
unfolding on_event started Scope.allows Scope.new text_eq
run_waits = refl
