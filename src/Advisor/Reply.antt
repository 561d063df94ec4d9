-- ===== src/Advisor/Reply.antt =====
-- The prompt and the reply of the language model in vectorguard/src/ai_advisor/mod.rs. The request
-- itself is an argument: `ask` takes the model and the prompt and returns the text of the reply, and
-- fails where the request or the decoding of its JSON does. `show_ip` and `debug` are the standard
-- library's formatting of an address and of a quoted text.
pub mod Fenced
use vector_guard.Prelude.{
  Bool, List, Option, Text, [], codes, contains, false, filter, if◌then◌else◌, is_empty, join_lines,
  lines, ltb, map, none, not, show_nat, some, starts_with, text_eq, trim, trim_start, true, ◌&&◌,
  ◌++◌, ◌==◌, ◌||◌, ◌∷◌,
}
use vector_guard.Config.{AiAdvisorConfig, AiProvider}
use vector_guard.Event.{EventType, IpAddr, NormalizedEvent}
use vector_guard.Incident.{action_name}
use vector_guard.Approval.{ext_of, rsplit_dot}
use vector_guard.Approval.Listing.{is_toml}

-- `push_str` of a line and of its end.
abbrev pub unlines : List Text → Text
unlines [] = []
unlines (l ∷ ls) = l ++ (10 ∷ unlines ls)

abbrev pub fence : Text
fence = codes "```"

abbrev pub opens_block : Text → Bool
opens_block line =
    starts_with line (codes "```toml") || starts_with (trim_start line) (codes "```toml")

-- The lines that the loop of `extract_toml` keeps.
unfoldable pub block_lines : Bool → List Text → List Text
block_lines in_block [] = []
block_lines in_block (line ∷ ls) =
    let inside = block_lines true ls in
    let outside = block_lines false ls in
    if not in_block
    then (if opens_block line then inside else outside)
    else if text_eq (trim line) fence
    then outside
    else line ∷ inside

-- `extract_toml`, with its fallback to a reply without a fence.
unfoldable pub extract_toml : Text → Text
unfolding block_lines lines
extract_toml text =
    let result = unlines (block_lines false (lines text)) in
    if is_empty result && contains text (codes "[[rules]]") then text else result

-- `call_anthropic` and `call_openai`: the model if none is configured, and no answer without TOML.
abbrev pub default_model : AiProvider → Text
default_model AiProvider.anthropic = codes "claude-sonnet-4-6"
default_model AiProvider.openai = codes "gpt-4o"

abbrev pub model_of : AiAdvisorConfig → Text
model_of cfg = if is_empty cfg.model then default_model cfg.provider else cfg.model

abbrev pub block_of : Option Text → Option Text
block_of none = none
block_of (some text) =
    let toml_block = extract_toml text in if is_empty toml_block then none else some toml_block

unfoldable pub call_provider :
    (AiProvider → Text → Text → Option Text) → AiAdvisorConfig → Text → Option Text
unfolding extract_toml
call_provider ask cfg prompt = block_of (ask cfg.provider (model_of cfg) prompt)

-- `paths.sort()`: texts compared by their characters, which for UTF-8 is the order of the bytes.
unfoldable pub text_leb : Text → Text → Bool
text_leb [] t = true
text_leb (a ∷ s) [] = false
text_leb (a ∷ s) (b ∷ t) = let rest = text_leb s t in if a == b then rest else ltb a b

-- The files of the directory of rules: a name, and the text if it can be read.
abbrev pub RuleFile : Type 0
RuleFile = Text × Option Text

unfoldable pub insert_file : RuleFile → List RuleFile → List RuleFile
insert_file f [] = f ∷ []
insert_file f (g ∷ gs) =
    let rest = insert_file f gs in if text_leb f.0 g.0 then f ∷ g ∷ gs else g ∷ rest

unfoldable pub sort_files : List RuleFile → List RuleFile
unfolding insert_file
sort_files [] = []
sort_files (f ∷ fs) = insert_file f (sort_files fs)

abbrev pub contents : List RuleFile → Text
contents [] = []
contents ((name, none) ∷ fs) = contents fs
contents ((name, some content) ∷ fs) = content ++ (10 ∷ contents fs)

-- `load_current_rules`: `none` for a directory that cannot be read.
unfoldable pub load_current_rules : Option (List RuleFile) → Text
unfolding sort_files
load_current_rules none = []
load_current_rules (some entries) =
    contents (sort_files (filter (λ f. is_toml (ext_of (rsplit_dot f.0))) entries))

-- The fixed text of the prompt, around the rules, the events and the number of rules.
abbrev prompt_head : Text
prompt_head =
    codes
      "You are a security rule advisor for VectorGuard, an eBPF-based security monitoring tool.\n\n"
    ++ codes "Current fast-path rules (TOML):\n```toml\n"

abbrev prompt_events : Text
prompt_events = codes "```\n\nRecent anomalous events (repeated pattern detected):\n"

abbrev prompt_task : Text
prompt_task = codes "\n\nBased on this pattern, suggest 1-"

abbrev prompt_form : Text
prompt_form =
    codes
      " new security rules. Each rule MUST include a `description` field with a single-sentence "
    ++ (codes "rationale explaining why the rule is being proposed — a human reviewer "
        ++ (codes "will read this before approving.\n\n"
            ++ (codes "Use this TOML structure (all match fields are optional, AND-combined):\n"
                ++ (codes "```toml\n[[rules]]\n"
                    ++ (codes "name              = \"rule-name\"      # unique, kebab-case\n"
                        ++ (codes "action            = \"alert\"           # block | alert | log\n"
                            ++ (codes
                                  "description       = \"why this rule\"   # one-sentence rationale (required)\n"
                                ++ (codes
                                      "match_process     = [\"binary\"]        # process comm name globs\n"
                                    ++ (codes
                                          "match_path_prefix = [\"/path/\"]       # file path prefixes\n"
                                        ++ (codes
                                              "match_exec_path   = [\"/bin/sh\"]      # executed binary path prefixes\n"
                                            ++ (codes
                                                  "match_port        = [4444]             # destination ports\n"
                                                ++ (codes
                                                      "match_uid         = 0                  # user ID\n```\n"
                                                    ++ codes
                                                        "Reply with only the TOML block(s), no commentary."))))))))))))

module _ (show_ip : IpAddr → Text) (debug : Text → Text) where
  abbrev pub type_text : EventType → Text
  type_text (EventType.file_access path flags) = codes "file_access path=" ++ path
  type_text (EventType.network direction ip port proto) =
      codes "network remote=" ++ (show_ip ip ++ (b':' ∷ show_nat port))
  type_text EventType.exec = codes "exec"
  type_text (EventType.privilege syscall capability) = codes "privilege syscall=" ++ syscall
  type_text (EventType.signal signum target_pid) = codes "signal sig=" ++ show_nat signum

  -- `{:?}` of the name of the rule.
  abbrev pub rule_text : Option Text → Text
  rule_text none = codes "None"
  rule_text (some name) = codes "Some(" ++ (debug name ++ codes ")")

  unfoldable pub summary_of : {J : Type 0} → NormalizedEvent J → Text
  unfolding show_nat
  summary_of ev =
      codes "binary="
      ++ (ev.process.binary
          ++ (codes " uid="
              ++ (show_nat ev.process.uid
                  ++ (codes " action="
                      ++ (action_name ev.action
                          ++ (codes " type="
                              ++ (type_text ev.event_type
                                  ++ (codes " rule=" ++ rule_text ev.rule_name))))))))

  -- `build_prompt`
  unfoldable pub build_prompt :
      {J : Type 0} → AiAdvisorConfig → Option (List RuleFile) → List (NormalizedEvent J) → Text
  unfolding summary_of load_current_rules show_nat join_lines
  build_prompt cfg files context =
      prompt_head
      ++ (load_current_rules files
          ++ (prompt_events
              ++ (join_lines (map (λ ev. summary_of ev) context)
                  ++ (prompt_task ++ (show_nat cfg.max_rules_per_fire ++ prompt_form)))))
