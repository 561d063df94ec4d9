-- ===== src/Kernel/Blocking.antt =====
-- When the eBPF programs of vectorguard-ebpf/src/main.rs stop a call, and what they report of it.
use vector_guard.Prelude.{
  Bool, List, Option, arith, false, inl, inr, none, refl, some, true, ℕ, ◌%◌, ◌*◌, ◌+◌, ◌==◌, ◌^◌,
  ◌||◌, ◌↔◌, ◌≡◌, ◌≢◌, ◌⊎◌,
}
use vector_guard.Common.{RawEvent, byte_at, be16}
use vector_guard.Kernel.{
  Call, Lists, get_comm, low32, flag, exec_blocked, handle_exec, lsm_exec, handle_net_connect,
  dst_of, net_outcome,
}

-- The command name or the uid of the caller is in the block maps.
abbrev pub Blocked : Lists → Call → Type 0
Blocked l k = (l.comms (get_comm k) ≡ true) ⊎ (l.uids (low32 k.uid_gid) ≡ true)

-- A slot of the ring buffer could be reserved.
abbrev pub Reserved : Call → Type 0
Reserved k = (old : RawEvent) × (k.slot ≡ some old)

exec_blocked_iff : (l : Lists) (k : Call) → (exec_blocked l k ≡ true) ↔ Blocked l k
exec_blocked_iff l k = go (l.comms (get_comm k)) (l.uids (low32 k.uid_gid))
  where
    go : (a b : Bool) → ((a || b) ≡ true) ↔ ((a ≡ true) ⊎ (b ≡ true))
    go true b = (λ h. inl refl, λ h. refl)
    go false b = (λ h. inr h, elim [ inl e ↦ cc | inr e ↦ e ])

module _ (l : Lists) (k : Call) where
  -- The exec hook of the LSM denies a call exactly when the caller's command name or uid is in the
  -- block maps.
  pub lsm_exec_iff : (lsm_exec l k ≡ true) ↔ Blocked l k
  unfolding lsm_exec
  lsm_exec_iff = (
    λ h. (exec_blocked_iff l k).0 (ground arith),
    λ b. let e = (exec_blocked_iff l k).1 b in ground arith,
  )

  -- The exec tracepoint kills the caller exactly when the caller is in the block maps and a slot of
  -- the ring buffer could be reserved: with a full ring buffer it kills nobody.
  pub handle_exec-kills_iff : ((handle_exec l k).killed ≡ true) ↔ (Reserved k × Blocked l k)
  unfolding handle_exec
  handle_exec-kills_iff = go k.slot
    where
      go :
          (o : Option RawEvent)
          → ((unfold handle_exec in (handle_exec l (record k { slot = o })).killed) ≡ true)
            ↔ (((old : RawEvent) × (o ≡ some old)) × Blocked l k)
      go none = (λ h. cc, λ ((old, e), b). cc)
      go (some old) =
          (λ h. ((old, refl), (exec_blocked_iff l k).0 h), λ (r, b). (exec_blocked_iff l k).1 b)

  -- Where a slot could be reserved, an event is submitted. It is marked as blocked exactly when the
  -- caller is killed; its pid and ppid are the upper and the lower half of what
  -- bpf_get_current_pid_tgid returns, its gid and uid those of bpf_get_current_uid_gid.
  pub handle_exec-reports :
      (old : RawEvent)
      → k.slot ≡ some old
      → (raw : RawEvent) × ((handle_exec l k).submitted ≡ some raw)
        × ((raw.blocked ≡ 1) ↔ ((handle_exec l k).killed ≡ true))
        × (raw.pid * 2 ^ 32 + raw.ppid ≡ k.pid_tgid % 2 ^ 64)
        × (raw.gid * 2 ^ 32 + raw.uid ≡ k.uid_gid % 2 ^ 64)
  unfolding handle_exec
  handle_exec-reports old e = rw e (_, refl, flag_iff (exec_blocked l k), omega arith, omega arith)
    where
      flag_iff : (b : Bool) → (flag b ≡ 1) ↔ (b ≡ true)
      flag_iff true = (λ h. refl, λ h. refl)
      flag_iff false = (λ h. absurd (omega arith), λ h. cc)

  -- A connect that the program can read: the address pointer is set, 28 bytes are there, and the
  -- family is AF_INET or AF_INET6.
  pub record Connects (port family : ℕ) (addr : List ℕ) : Type 0 where
    pub ptr : ℕ
    pub sockaddr : List ℕ
    pub at_ptr : k.read_at 24 ≡ some ptr
    pub not_null : ptr ≢ 0
    pub read : k.read_buf ptr 28 ≡ some sockaddr
    pub dst : dst_of sockaddr ≡ some (family, addr)
    pub dst_port : be16 (byte_at sockaddr 2) (byte_at sockaddr 3) ≡ port

  -- For a connect whose socket address can be read and is of IPv4 or IPv6, the caller is killed
  -- exactly when the port, in network byte order, is in the block map and a slot could be reserved.
  handle_net_connect-kills_iff :
      (port family : ℕ) (addr : List ℕ)
      → Connects port family addr
      → ((handle_net_connect l k).killed ≡ true) ↔ (Reserved k × (l.ports port ≡ true))
  unfolding handle_net_connect
  handle_net_connect-kills_iff port family addr c =
      rw (c.at_ptr, ptr_test, c.read, c.dst, c.dst_port) (go k.slot)
    where
      ptr_test : (c.ptr == 0) ≡ false
      ptr_test = let n = c.not_null in ground arith

      go :
          (o : Option RawEvent)
          → ((net_outcome l (record k { slot = o }) port (some (family, addr))).killed ≡ true)
            ↔ (((old : RawEvent) × (o ≡ some old)) × (l.ports port ≡ true))
      go none = (λ h. cc, λ ((old, e), b). cc)
      go (some old) = (λ h. ((old, refl), h), λ (r, b). b)
