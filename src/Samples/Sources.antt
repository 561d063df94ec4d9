-- ===== src/Samples/Sources.antt =====
-- The sources of events and the reply of the language model, at concrete inputs.
use vector_guard.Prelude.{
  List, Option, Text, [], arith, codes, false, length, map, none, refl, some, starts_with, text_eq,
  trim, trim_start, true, ℕ, ◌∷◌, ◌≡◌,
}
use vector_guard.Event.{IpAddr, NormalizedEvent}
use vector_guard.Adapter.{Attempt, run_adapter}
use vector_guard.Adapter.Delivered.{events_of, run_adapter-events, texts_read}
use vector_guard.Adapter.Tetragon.{Message, Process, process_exec, process_exit, process_loader}
use vector_guard.Adapter.Tetragon.Stream.{deliver, served}
use vector_guard.Adapter.Tetragon.Stream.Order.{backwards, converted, deliver-reversed, fresh}
use vector_guard.Auditd.{event_of_line}
use vector_guard.Advisor.Reply.{extract_toml, unlines}
use vector_guard.Advisor.Reply.Fenced.{extract_toml-fenced}

abbrev exec_line : Text
exec_line = codes "type=SYSCALL syscall=59 pid=7 uid=0 comm=\"sh\" exe=\"/bin/sh\"\n"

-- The file cannot be opened, then holds a record of another kind and one of a system call.
abbrev attempts : List Attempt
attempts =
    record { can_open = false; read = none }
    ∷ record { can_open = true; read = some (codes "type=CWD cwd=\"/\"\n") }
    ∷ record { can_open = true; read = some [] }
    ∷ record { can_open = true; read = some exec_line }
    ∷ []

abbrev no_json : Text → Unit {0}
no_json s = tt

run_adapter-events_example :
    run_adapter
      (event_of_line no_json)
      (record { is_open = false; next_id = 5 })
      (map (λ a. (a, true)) attempts)
    ≡ events_of (event_of_line no_json) 5 (texts_read false attempts)
run_adapter-events_example =
    run_adapter-events (event_of_line no_json) (record { is_open = false; next_id = 5 }) attempts

run_one_event : length (events_of (event_of_line no_json) 5 (texts_read false attempts)) ≡ 1
unfolding event_of_line trim starts_with
run_one_event = refl

abbrev process : ℕ → Process
process pid = record {
  pid = some pid;
  uid = none;
  cwd = [];
  binary = codes "/bin/sh";
  arguments = codes "-c ls";
  pod = some (record { namespace = codes "default"; name = codes "web" });
}

abbrev messages : List (Option Message)
messages =
    some (process_exec (some (process 7)) none)
    ∷ some process_loader
    ∷ some (process_exit (some (process 7)) none)
    ∷ none
    ∷ []

abbrev no_ip : Text → Option IpAddr
no_ip s = none

abbrev both : List (NormalizedEvent Unit)
both = converted no_ip tt 3 messages

deliver-reversed_example :
    deliver no_ip tt (length both) (fresh no_ip tt 3) (served messages true ∷ []) ≡ backwards both
deliver-reversed_example = deliver-reversed no_ip tt 3 messages true []

abbrev reply : Text
reply = unlines (
    codes "Here it is:"
    ∷ codes "```toml"
    ∷ codes "[[rules]]"
    ∷ codes "name = \"x\""
    ∷ codes "```"
    ∷ [])

extract_toml-fenced_example :
    extract_toml reply ≡ unlines (codes "[[rules]]" ∷ codes "name = \"x\"" ∷ [])
unfolding starts_with trim_start trim text_eq
extract_toml-fenced_example =
    extract_toml-fenced (codes "Here it is:" ∷ []) (codes "name = \"x\"" ∷ []) []
      (codes "[[rules]]") (codes "```toml") (codes "```") (refl, tt) refl (refl, (refl, tt)) refl tt
      (ground arith)
