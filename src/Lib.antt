-- ===== src/Lib.antt =====
-- VectorGuard: a runtime security daemon. eBPF programs in the kernel report calls of exec, open and
-- connect, and stop those of blocked callers; the daemon decides each event by rules (the fast path),
-- looks for anomalies with embeddings (the slow path), logs incidents, and asks a language model for
-- rules when a pattern of incidents recurs.
--
-- How an event travels, and which file models which part (sources from the repository's root):
-- - Kernel.antt: the tracepoints and LSM hooks of vectorguard-ebpf/src/main.rs. A run is a function of
--   what it reads through the kernel's helpers (`Call`) and of the answers of the block maps
--   (`Lists`). Common.antt is the record they write, vectorguard-common/src/lib.rs.
-- - Collector.antt: vectorguard/src/collector.rs turns a record into the event of Event.antt
--   (vectorguard/src/event/mod.rs).
-- - Adapter.antt: vectorguard/src/adapter/mod.rs and the loop that follows a file; Auditd.antt:
--   adapter/auditd.rs, Adapter/Falco.antt: adapter/falco.rs, the sources that read such files;
--   Adapter/Tetragon.antt with Adapter/Tetragon/Stream.antt: adapter/tetragon.rs, the source that
--   reads a stream of messages (vectorguard/proto/tetragon.proto).
-- - Pipeline.antt: `run_pipeline` and `run_slow_worker` of vectorguard/src/main.rs, one function per
--   arm of their loops: scope, fast path, incident log, advisor, the queue to the worker, the
--   channel to the user interface; reloads; the worker's analysis. Pipeline/Startup.antt: the state
--   that `main` builds for them.
-- - Scope.antt: vectorguard/src/scope.rs, `ScopeFilter::new` and `allows`.
-- - Rules.antt and Rules/Load.antt: vectorguard/src/fast_path/rules.rs, `Rule::matches`,
--   `RuleSet::evaluate`, `load_dir`, `builtin_rules`. FastPath.antt: vectorguard/src/fast_path/mod.rs.
-- - Enforcer.antt: vectorguard/src/enforcer.rs, `comm_key`, `compute_block_keys`, `clear`,
--   `load_rules`. The kernel's maps are an interface (`MapApi`) with laws (`MapLaws`).
-- - SlowPath.antt: vectorguard/src/slow_path/mod.rs and the dispatch of vectordb.rs, whose requests
--   to Qdrant are in SlowPath/Qdrant.antt; SlowPath/Context.antt: context.rs; SlowPath/Embedder.antt:
--   embedder/mod.rs; SlowPath/Embedder/Local.antt: `deterministic_embed` of embedder/local.rs;
--   SlowPath/Embedder/Providers.antt: the requests of embedder/openai.rs, voyage.rs, gemini.rs and
--   local.rs.
-- - Incident.antt: vectorguard/src/incident.rs. Advisor.antt: vectorguard/src/ai_advisor/mod.rs;
--   Advisor/Reply.antt: its prompt and the TOML in a reply.
-- - Approval.antt, Approval/Listing.antt and Approval/Reaper.antt: vectorguard/src/approval.rs on two
--   directories.
-- - Tui.antt: the tabs and `push_event` of vectorguard/src/tui/app.rs; Tui/ConfigText.antt: its
--   `extract_toml_value` and `update_toml_value`; Tui/ProcessTree.antt: `process_tree_rows`;
--   Tui/App.antt, Tui/App/Editor.antt and Tui/App/Cursor.antt: the state `App` and its operations.
--   Tui/Keys.antt: `EventHandler::handle` of tui/event.rs; Tui/Loop.antt: `run_loop` of tui/mod.rs,
--   which turns keys, events and the refresh of the proposals into one sequence of turns.
--   Tui/Render.antt with Tui/Render/Popup.antt and Tui/Render/Screen.antt: the texts that
--   tui/render.rs draws, its highlighted rows and the colours that depend on data.
-- - Cli.antt: `parse_args` and the subcommands of vectorguard/src/main.rs. HotReload.antt: the loop of
--   vectorguard/src/hotreload.rs.
-- - Config.antt: the sections of vectorguard/src/config.rs that these parts read.
-- - Prelude holds what they share: lists, texts (lists of characters), UTF-8, decimal numbers,
--   association lists. Samples holds concrete inputs and runs.
--
-- Each part has its operations in the file with its name, and what is shown of them in files below.
-- Integers are natural numbers with the wrap-around or the saturation of the source written out.
-- Every loop of the program follows a list, but for three that run on fuel: the printing of a number
-- in Prelude/Decimal.antt on its value plus one, which is more than it has digits; the walk over the
-- process tree on the number of processes plus one, since every call on the stack has visited another
-- process; `trim_start_matches` in Cli.antt on the length of the text, since every pass shortens it.
-- Loops that wait (for keys, lines, responses, ticks) follow the list of what they are given. Times are
-- in nanoseconds.
--
-- Parameters, since they are not part of the repository: the glob crate (Glob.antt; of it only that a
-- plain pattern matches nothing but itself is assumed, in Rules/Dead.antt), floats (Float.antt, no
-- law assumed), the TOML and JSON crates, the kernel's maps and helpers, the embedding provider,
-- Qdrant, the language model, the lower case of Unicode, the terminal, clocks and directories.
--
-- Not modelled: the layout and the styles of the drawing, the set-up of the terminal, the loop without
-- a terminal, the tasks that `main` starts besides, the set-up of the file watcher, loading and
-- attaching of the programs, the transport of HTTP requests.
mod Prelude
pub mod Event
pub mod Glob
pub mod Rules
pub mod Config
pub mod FastPath
pub mod Scope
pub mod Enforcer
pub mod Common
pub mod Kernel
pub mod Collector
pub mod Auditd
pub mod Adapter
pub mod Float
pub mod SlowPath
pub mod Incident
pub mod Advisor
pub mod Approval
pub mod Tui
pub mod Pipeline
pub mod Cli
pub mod HotReload
mod Samples
