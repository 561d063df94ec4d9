-- ===== src/Samples/Programs.antt =====
-- The kernel programs and the collector on concrete calls.
use vector_guard.Prelude.{
  All, List, arith, codes, false, if◌then◌else◌, is_scalar, length, none, refl, replicate, some,
  text_eq, true, utf8, ℕ, ◌*◌, ◌+◌, ◌==◌, ◌^◌, ◌↔◌, ◌∷◌, ◌≡◌, ◌≢◌, ◌≤◌,
}
use vector_guard.Common.{EventKind, RawEvent}
use vector_guard.Enforcer.{comm_key}
use vector_guard.Kernel.{Call, Lists, handle_exec, handle_file_open, lsm_exec}
use vector_guard.Kernel.Blocking.{Blocked, Reserved, handle_exec-kills_iff, handle_exec-reports}
use vector_guard.Collector.{parse_raw_event}
use vector_guard.Collector.Parsing.{binary-comm_key}

abbrev pub old_slot : RawEvent
old_slot = record {
  kind = EventKind.exec;
  timestamp = 1;
  pid = 9;
  ppid = 9;
  uid = 9;
  gid = 9;
  comm = replicate 16 b'x';
  payload = replicate 768 b'y';
  blocked = 0;
}

abbrev pub sockaddr4 : List ℕ
sockaddr4 = 2 ∷ 0 ∷ 17 ∷ 92 ∷ 10 ∷ 0 ∷ 0 ∷ 1 ∷ replicate 20 0

-- A call of the task `nc` with the uid 1000, whose third argument points to a socket address.
abbrev pub call_with : List ℕ → Call
call_with sockaddr = record {
  pid_tgid = 7 * 2 ^ 32 + 8;
  uid_gid = 1000 * 2 ^ 32 + 1000;
  ktime = 100;
  current_comm = some (comm_key (codes "nc"));
  slot = some old_slot;
  read_at = λ offset. if offset == 24 then some 4096 else none;
  read_str = λ ptr buffer. buffer;
  read_buf = λ ptr n. some sockaddr;
}

abbrev pub connects4 : Call
connects4 = call_with sockaddr4

abbrev pub lists : Lists
lists = record {
  comms = λ k. text_eq k (comm_key (codes "nc"));
  ports = λ p. p == 4444;
  uids = λ u. false;
}

run_lsm_exec : lsm_exec lists connects4 ≡ true
unfolding lsm_exec comm_key utf8 text_eq
run_lsm_exec = refl

handle_exec-kills_iff_example :
    ((handle_exec lists connects4).killed ≡ true) ↔ (Reserved connects4 × Blocked lists connects4)
handle_exec-kills_iff_example = handle_exec-kills_iff lists connects4

fits :
    All (λ c. is_scalar c ≡ true) (codes "nc")
    × All (λ b. b ≢ 0) (utf8 (codes "nc"))
    × (length (utf8 (codes "nc")) ≤ 15)
unfolding utf8
fits = ((refl, (refl, tt)), (ground arith), omega arith)

abbrev reported : RawEvent
reported = (handle_exec-reports lists connects4 old_slot refl).0

reported_submitted : (handle_exec lists connects4).submitted ≡ some reported
reported_submitted = (handle_exec-reports lists connects4 old_slot refl).1

binary-comm_key_example : (parse_raw_event tt 1 reported).process.binary ≡ codes "nc"
binary-comm_key_example =
    binary-comm_key tt lists connects4 1 (codes "nc") reported fits refl reported_submitted

-- Nothing of user memory can be read.
abbrev blind : Call
blind = record connects4 { read_at = λ offset. none }

abbrev opened : RawEvent
opened = record old_slot {
  kind = EventKind.file_open;
  timestamp = 100;
  pid = 7;
  ppid = 8;
  uid = 1000;
  gid = 1000;
  comm = comm_key (codes "nc");
}

run_opened : (handle_file_open blind).submitted ≡ some opened
unfolding handle_file_open comm_key utf8
run_opened = refl
