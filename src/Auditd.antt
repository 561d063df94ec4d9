-- ===== src/Auditd.antt =====
-- vectorguard/src/adapter/auditd.rs: the SYSCALL records of the audit log as events. Opening and
-- following the file are left out; `json` is `serde_json::Value::String`.
use vector_guard.Prelude.{
  Bool, List, Option, Text, [], all, ap, codes, contains, false, if◌then◌else◌, insert, is_empty,
  is_whitespace, leb, lookup, ltb, none, not, refl, show_nat, some, split_once, sym, text_eq, trim,
  trim_quotes, true, unwrap_or, ℕ, ◌&&◌, ◌*◌, ◌+◌, ◌-◌, ◌==◌, ◌^◌, ◌||◌, ◌∙◌, ◌∷◌, ◌≡◌,
}
use vector_guard.Event.{
  Action, Direction, EventSource, EventType, FileFlags, IpAddr, NormalizedEvent, Proto, Severity,
}

-- `split_whitespace`: the words, none of them empty.
abbrev pub push_char : ℕ → Bool → List Text → List Text
push_char c joined [] = (c ∷ []) ∷ []
push_char c joined (w ∷ ws) = if joined then (c ∷ w) ∷ ws else (c ∷ []) ∷ w ∷ ws

-- Whether the text goes on with a character of a word.
abbrev pub in_word : Text → Bool
in_word [] = false
in_word (c ∷ s) = not (is_whitespace c)

unfoldable pub split_whitespace : Text → List Text
split_whitespace [] = []
split_whitespace (c ∷ s) =
    let rest = split_whitespace s in if is_whitespace c then rest else push_char c (in_word s) rest

-- `parse_kv`: a later value of a key replaces an earlier one.
abbrev pub add_token : List (Text × Text) → Option (Text × Text) → List (Text × Text)
add_token m none = m
add_token m (some (k, v)) = insert text_eq k v m

unfoldable pub add_tokens : List (Text × Text) → List Text → List (Text × Text)
add_tokens m [] = m
add_tokens m (token ∷ tokens) = add_tokens (add_token m (split_once b'=' token)) tokens

unfoldable pub parse_kv : Text → List (Text × Text)
unfolding add_tokens split_whitespace
parse_kv line = add_tokens [] (split_whitespace line)

-- `str::parse::<u32>`: digits, with a plus sign in front perhaps, below 2 ^ 32.
abbrev pub is_digit : ℕ → Bool
is_digit c = leb b'0' c && leb c b'9'

abbrev pub digits_value : ℕ → Text → ℕ
digits_value acc [] = acc
digits_value acc (d ∷ ds) = digits_value (acc * 10 + (d - b'0')) ds

abbrev pub parse_digits : Text → Option ℕ
parse_digits [] = none
parse_digits (c ∷ s) =
    if all is_digit (c ∷ s) && ltb (digits_value 0 (c ∷ s)) (2 ^ 32)
    then some (digits_value 0 (c ∷ s))
    else none

unfoldable pub parse_u32 : Text → Option ℕ
parse_u32 [] = none
parse_u32 (c ∷ s) = if c == b'+' then parse_digits s else parse_digits (c ∷ s)

-- `trim_matches('"')`; the quotation mark is the character 34.
unfoldable pub unquote : Text → Text
unfolding trim_quotes
unquote s = trim_quotes s

abbrev pub number_of : Option Text → ℕ → ℕ
number_of none default_value = default_value
number_of (some s) default_value = unwrap_or (parse_u32 s) default_value

abbrev pub text_of : Option Text → Text
text_of none = []
text_of (some s) = unquote s

-- The event type of a system call number of x86_64.
abbrev pub syscall_event : ℕ → Text → EventType
syscall_event n exe =
    if n == 59 || n == 322
    then EventType.exec
    else if n == 2 || n == 257
    then EventType.file_access exe (record { read = true; write = false; execute = false })
    else if n == 42 || n == 288
    then EventType.network Direction.outbound (IpAddr.v4 0 0 0 0) 0 Proto.tcp
    else EventType.privilege (show_nat n) none

module _ {J : Type 0} (json : Text → J) where
  -- The event of the fields; `id` is the next value of the counter.
  abbrev pub event_of_fields : ℕ → Text → List (Text × Text) → NormalizedEvent J
  event_of_fields id line fields =
      let uid = number_of (lookup text_eq (codes "uid") fields) 65534 in
      let comm = text_of (lookup text_eq (codes "comm") fields) in
      let exe = text_of (lookup text_eq (codes "exe") fields) in
      record {
        id = id;
        timestamp = 0;
        source = EventSource.auditd;
        process = record {
          pid = number_of (lookup text_eq (codes "pid") fields) 0;
          ppid = number_of (lookup text_eq (codes "ppid") fields) 0;
          binary = if is_empty comm then exe else comm;
          args = [];
          uid = uid;
          gid = 0;
          cwd = [];
        };
        parent = none;
        event_type = syscall_event (number_of (lookup text_eq (codes "syscall") fields) 0) exe;
        severity = if uid == 0 then Severity.medium else Severity.info;
        action = Action.allowed;
        rule_name = none;
        k8s = none;
        raw = json line;
      }

  -- `parse_auditd_syscall`, which never fails.
  unfoldable pub parse_auditd_syscall : ℕ → Text → NormalizedEvent J
  unfolding parse_kv
  parse_auditd_syscall id line = event_of_fields id line (parse_kv line)

  -- One line of `next_event`: only SYSCALL records become events.
  unfoldable pub event_of_line : ℕ → Text → Option (NormalizedEvent J)
  unfolding parse_auditd_syscall
  event_of_line id raw_line =
      let line = trim raw_line in
      if is_empty line
      then none
      else if not (contains line (codes "type=SYSCALL"))
      then none
      else some (parse_auditd_syscall id line)

abbrev path_or : Text → EventType → Text
path_or exe (EventType.file_access path flags) = path
path_or exe _ = exe

path_or-syscall_event : (n : ℕ) (exe : Text) → path_or exe (syscall_event n exe) ≡ exe
path_or-syscall_event n exe = go (n == 59 || n == 322) (n == 2 || n == 257) (n == 42 || n == 288)
  where
    go :
        (a b c : Bool)
        → path_or exe (
            if a
            then EventType.exec
            else if b
            then EventType.file_access exe (record { read = true; write = false; execute = false })
            else if c
            then EventType.network Direction.outbound (IpAddr.v4 0 0 0 0) 0 Proto.tcp
            else EventType.privilege (show_nat n) none)
          ≡ exe
    go true b c = refl
    go false true c = refl
    go false false true = refl
    go false false false = refl

-- Whatever the record says, the path reported for an open call is not the file that is opened: it is
-- the executable of the process.
syscall_event-exe :
    (n : ℕ) (exe path : Text) (flags : FileFlags)
    → syscall_event n exe ≡ EventType.file_access path flags
    → path ≡ exe
syscall_event-exe n exe path flags h = sym (ap (path_or exe) h) ∙ path_or-syscall_event n exe
