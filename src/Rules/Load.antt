-- ===== src/Rules/Load.antt =====
-- `RuleSet::load_dir` and `RuleSet::builtin_rules` of fast_path/rules.rs. The directory is an
-- argument; `parse` is `toml::from_str::<RuleSet>`, of the toml crate.
use vector_guard.Prelude.{
  Bool, List, Option, Text, [], append-nil, append_assoc, codes, false, if◌then◌else◌, is_empty,
  none, refl, some, sym, text_eq, ◌++◌, ◌∙◌, ◌∷◌, ◌≡◌, ◌≢◌,
}
use vector_guard.Rules.{RuleAction, Rule, RuleSet}

-- What `load_dir` sees of one entry: `path.extension().and_then(to_str)`, and the result of
-- `read_to_string`.
pub record DirEntry : Type 0 where
  pub extension : Option Text
  pub content : Option Text

abbrev pub toml_ext : Text
toml_ext = codes "toml"

abbrev pub has_ext : Option Text → Bool
has_ext none = false
has_ext (some x) = text_eq x toml_ext

-- `RuleSet::builtin_rules`
abbrev pub block_shadow_access : Rule
block_shadow_access = record {
  name = codes "block-shadow-access";
  action = RuleAction.block;
  description = none;
  match_process = [];
  match_path_prefix = codes "/etc/shadow" ∷ codes "/etc/sudoers" ∷ codes "/etc/gshadow" ∷ [];
  match_exec_path = [];
  match_port = [];
  match_uid = none;
}

abbrev pub alert_shell_exec : Rule
alert_shell_exec = record {
  name = codes "alert-shell-exec-by-service";
  action = RuleAction.alert;
  description = none;
  match_process = codes "nginx" ∷ codes "postgres" ∷ codes "apache2" ∷ [];
  match_path_prefix = [];
  match_exec_path =
      codes "/bin/sh"
      ∷ codes "/bin/bash"
      ∷ codes "/bin/dash"
      ∷ codes "/usr/bin/python"
      ∷ codes "/usr/bin/perl"
      ∷ [];
  match_port = [];
  match_uid = none;
}

abbrev pub alert_unusual_port : Rule
alert_unusual_port = record {
  name = codes "alert-outbound-unusual-port";
  action = RuleAction.alert;
  description = none;
  match_process = [];
  match_path_prefix = [];
  match_exec_path = [];
  match_port = 4444 ∷ 1337 ∷ 31337 ∷ 9001 ∷ 8888 ∷ [];
  match_uid = none;
}

abbrev pub alert_root_exec : Rule
alert_root_exec = record {
  name = codes "alert-root-exec";
  action = RuleAction.alert;
  description = none;
  match_process = [];
  match_path_prefix = [];
  match_exec_path = codes "/usr/bin/wget" ∷ codes "/usr/bin/curl" ∷ codes "/usr/bin/nc" ∷ [];
  match_port = [];
  match_uid = some 0;
}

unfoldable pub builtin_rules : List Rule
builtin_rules = block_shadow_access ∷ alert_shell_exec ∷ alert_unusual_port ∷ alert_root_exec ∷ []

module _ (parse : Text → Option RuleSet) where
  -- The rules that one entry adds: none unless it is a readable, well-formed *.toml file.
  abbrev pub parsed_rules : Option RuleSet → List Rule
  parsed_rules none = []
  parsed_rules (some rs) = rs.rules

  abbrev pub content_rules : Option Text → List Rule
  content_rules none = []
  content_rules (some content) = parsed_rules (parse content)

  abbrev pub entry_rules : DirEntry → List Rule
  entry_rules entry = if has_ext entry.extension then content_rules entry.content else []

  -- The loop over the directory, which extends `all_rules`.
  unfoldable pub gather : List DirEntry → List Rule → List Rule
  gather [] all_rules = all_rules
  gather (entry ∷ entries) all_rules = gather entries (all_rules ++ entry_rules entry)

  abbrev read_all : Option (List DirEntry) → List Rule
  read_all none = []
  read_all (some entries) = gather entries []

  -- `dir` is `none` where `read_dir` fails, and else the entries that could be read.
  unfoldable pub load_dir : Option (List DirEntry) → RuleSet
  load_dir dir =
      let all_rules = read_all dir in
      record { rules = if is_empty all_rules then builtin_rules else all_rules }

  -- The rules of a directory, one file after the other.
  abbrev pub concat_rules : List DirEntry → List Rule
  concat_rules [] = []
  concat_rules (entry ∷ entries) = entry_rules entry ++ concat_rules entries

  gather-eq :
      (entries : List DirEntry) (acc : List Rule) → gather entries acc ≡ acc ++ concat_rules entries
  unfolding gather
  gather-eq [] acc = sym (append-nil acc)
  gather-eq (entry ∷ entries) acc =
      gather-eq entries (acc ++ entry_rules entry)
      ∙ append_assoc acc (entry_rules entry) (concat_rules entries)

  -- The rules found: none in a directory that cannot be read.
  abbrev pub dir_rules : Option (List DirEntry) → List Rule
  dir_rules none = []
  dir_rules (some entries) = concat_rules entries

  read_all-eq : (dir : Option (List DirEntry)) → read_all dir ≡ dir_rules dir
  read_all-eq none = refl
  read_all-eq (some entries) = gather-eq entries []

  -- What is loaded are the rules of the well-formed *.toml files, in directory order; where there
  -- is none, also because the directory cannot be read, it is the built-in set. So there is always
  -- a rule.
  load_dir_lem :
      (dir : Option (List DirEntry))
      → ((load_dir dir).rules ≡ (if is_empty (dir_rules dir) then builtin_rules else dir_rules dir))
        × ((load_dir dir).rules ≢ [])
  unfolding load_dir builtin_rules
  load_dir_lem dir = (rw (read_all-eq dir), nonempty (read_all dir))
    where
      nonempty : (l : List Rule) → (if is_empty l then builtin_rules else l) ≢ []
      nonempty [] = λ e. cc
      nonempty (r ∷ l) = λ e. cc
