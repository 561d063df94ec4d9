-- ===== src/Cli.antt =====
-- The command line of vectorguard/src/main.rs: `parse_args` and the subcommands on proposals.
pub mod Options
use vector_guard.Prelude.{
  Bool, List, Option, Text, [], codes, drop, if◌then◌else◌, length, map, map_opt, none, replicate,
  some, starts_with, suc, text_eq, unwrap_or, zero, ℕ, ◌++◌, ◌-◌, ◌||◌, ◌∷◌,
}
use vector_guard.Rules.{RuleAction, RuleSet}
use vector_guard.Approval.{Disk, Io, Result, approve, reject}
use vector_guard.Approval.Listing.{PendingItem, list_pending}

pub data Command : Type 0 where
  daemon list_proposals : Text → Command
  approve_one reject_one : Text → Text → Command

-- A command, or the exit code after a message.
pub data Parsed : Type 0 where
  run : Command → Parsed
  exit : ℕ → Parsed

abbrev pub config_flag : Text
config_flag = codes "--config="

-- `trim_start_matches`, which strips every repetition; a text of n characters has at most n of them.
unfoldable pub strip_from : ℕ → Text → Text → Text
strip_from zero flag s = s
strip_from (suc fuel) flag s =
    let rest = strip_from fuel flag (drop (length flag) s) in if starts_with s flag then rest else s

unfoldable pub trim_start_matches : Text → Text → Text
unfolding strip_from
trim_start_matches flag s = strip_from (length s) flag s

-- The path of the configuration and the positional arguments so far.
pub record Args : Type 0 where
  pub config_path : Option Text
  pub positional : List Text

abbrev pub set_config : Text → Args → Args
set_config path a = record a { config_path = some path }

abbrev pub add_positional : Text → Args → Args
add_positional s a = record a { positional = a.positional ++ s ∷ [] }

abbrev pub is_config_flag : Text → Bool
is_config_flag s = text_eq s (codes "--config") || text_eq s (codes "-c")

abbrev pub is_help_flag : Text → Bool
is_help_flag s = text_eq s (codes "--help") || text_eq s (codes "-h")

-- The loop of `parse_args`, without the name of the program; `none` where it prints the usage.
unfoldable pub parse_loop : Args → List Text → Option Args
unfolding trim_start_matches
parse_loop a [] = some a
parse_loop a (s ∷ []) =
    if is_config_flag s
    then some a
    else if starts_with s config_flag
    then some (set_config (trim_start_matches config_flag s) a)
    else if is_help_flag s
    then none
    else some (add_positional s a)
parse_loop a (s ∷ t ∷ args) =
    let valued = parse_loop (set_config t a) args in
    let assigned = parse_loop (set_config (trim_start_matches config_flag s) a) (t ∷ args) in
    let plain = parse_loop (add_positional s a) (t ∷ args) in
    if is_config_flag s
    then valued
    else if starts_with s config_flag
    then assigned
    else if is_help_flag s
    then none
    else plain

abbrev pub with_id : (Text → Command) → List Text → Parsed
with_id command [] = exit 2
with_id command (id ∷ rest) = run (command id)

abbrev pub subcommand : Text → Text → List Text → Parsed
subcommand config name rest =
    if text_eq name (codes "tui")
    then run (daemon config)
    else if text_eq name (codes "list-pending")
    then run (list_proposals config)
    else if text_eq name (codes "approve")
    then with_id (approve_one config) rest
    else if text_eq name (codes "reject")
    then with_id (reject_one config) rest
    else exit 2

abbrev pub dispatch : Text → List Text → Parsed
dispatch config [] = run (daemon config)
dispatch config (name ∷ rest) = subcommand config name rest

-- `default_config_path`; whether the system's configuration exists is an argument.
abbrev pub default_config_path : Bool → Text
default_config_path exists =
    if exists then codes "/etc/vectorguard/config.toml" else codes "config.toml"

abbrev pub resolve : Bool → Option Args → Parsed
resolve exists none = exit 0
resolve exists (some a) =
    dispatch (unwrap_or a.config_path (default_config_path exists)) a.positional

abbrev pub no_args : Args
no_args = record { config_path = none; positional = [] }

unfoldable pub parse_args : Bool → List Text → Parsed
unfolding parse_loop
parse_args exists args = resolve exists (parse_loop no_args args)

-- `{:<width}`: spaces up to the width, counted in characters.
abbrev pub pad : ℕ → Text → Text
pad width s = s ++ replicate (width - length s) 32

abbrev pub row : Text → Text → Text → Text → Text
row id name action description =
    pad 45 id ++ (b' ' ∷ (pad 32 name ++ (b' ' ∷ (pad 8 action ++ (b' ' ∷ description)))))

abbrev pub action_text : RuleAction → Text
action_text RuleAction.block = codes "block"
action_text RuleAction.alert = codes "alert"
action_text RuleAction.log = codes "log"
action_text RuleAction.allow = codes "allow"

abbrev pub item_row : PendingItem → Text
item_row it = row it.id it.rule.name (action_text it.rule.action) (unwrap_or it.rule.description [])

-- The lines that are printed.
abbrev pub printed : List PendingItem → List Text
printed [] = codes "No pending AI advisor proposals." ∷ []
printed (it ∷ items) =
    row (codes "ID") (codes "RULE") (codes "ACTION") (codes "DESCRIPTION")
    ∷ map item_row (it ∷ items)

-- The subcommands: `loads` tells whether the configuration can be loaded, `none` is an error.
unfoldable pub run_list_pending :
    (Text → Option RuleSet) → Io → ℕ → Bool → Disk → Option (List Text)
unfolding list_pending
run_list_pending parse io now loads disk =
    if loads then map_opt printed (list_pending parse io now disk) else none

-- `show_path` is the display of a file of the directory of rules.
unfoldable pub run_approve : (Text → Text) → Io → Bool → Disk → Text → Result Text
unfolding approve
run_approve show_path io loads disk id =
    let (after, result) = approve io disk id in
    if loads
    then (after, map_opt (λ name. codes "approved: " ++ show_path name) result)
    else (disk, none)

unfoldable pub run_reject : Io → Bool → Disk → Text → Result Text
unfolding reject
run_reject io loads disk id =
    let (after, result) = reject io disk id in
    if loads then (after, map_opt (λ name. codes "rejected: " ++ id) result) else (disk, none)
