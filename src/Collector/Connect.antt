-- ===== src/Collector/Connect.antt =====
-- A connect call from the sockaddr in user memory to the event of the pipeline.
use vector_guard.Prelude.{
  List, ap, ap₂, arith, false, length, refl, some, take, take-append, take_all, ℕ, ◌%◌, ◌*◌, ◌++◌,
  ◌+◌, ◌/◌, ◌<◌, ◌==◌, ◌∙◌, ◌∷◌, ◌≡◌, ◌≢◌,
}
use vector_guard.Event.{EventType, Severity, Direction, IpAddr, Proto}
use vector_guard.Common.{RawEvent}
use vector_guard.Kernel.{Lists, Call, flag, handle_net_connect}
use vector_guard.Collector.{parse_event_type}

-- The event reported for a readable sockaddr: its address and its port, in host order.
abbrev pub Reports : Lists → Call → ℕ → IpAddr → Type 0
Reports l k port ip =
    (raw : RawEvent) × ((handle_net_connect l k).submitted ≡ some raw)
    × (parse_event_type raw
        ≡ (EventType.network Direction.outbound ip port Proto.tcp, Severity.info))
    × (raw.blocked ≡ flag (l.ports port))

module _ (l : Lists) (k : Call) (ptr p1 p0 : ℕ) (old : RawEvent) (at_ptr : k.read_at 24 ≡ some ptr)
    (not_null : ptr ≢ 0) (reserved : k.slot ≡ some old) (high : p1 < 256) (low : p0 < 256) where
  ptr_test : (ptr == 0) ≡ false
  ptr_test = ground arith

  -- Where a slot could be reserved and the socket address could be read, a connect to an IPv4
  -- address is reported with that address and with the port in network byte order, and is marked as
  -- blocked exactly if that port is in the block map.
  connect_v4 :
      (a b c d : ℕ) (rest : List ℕ)
      → k.read_buf ptr 28 ≡ some (2 ∷ 0 ∷ p1 ∷ p0 ∷ a ∷ b ∷ c ∷ d ∷ rest)
      → Reports l k (p1 * 256 + p0) (IpAddr.v4 a b c d)
  unfolding handle_net_connect parse_event_type
  connect_v4 a b c d rest read =
      rw (at_ptr, ptr_test, read, reserved)
        (
          _,
          refl,
          ap
              (λ n. (
                EventType.network Direction.outbound (IpAddr.v4 a b c d) n Proto.tcp,
                Severity.info,
              ))
              port,
          refl,
        )
    where
      port : (p1 * 256 + p0) % 256 + (p1 * 256 + p0) / 256 * 256 ≡ p1 * 256 + p0
      port = omega arith

  -- Where a slot could be reserved and the socket address could be read, a connect to an IPv6
  -- address is reported with all sixteen bytes of that address and with the port in network byte
  -- order, and is marked as blocked exactly if that port is in the block map.
  connect_v6 :
      (f0 f1 f2 f3 : ℕ) (addr rest : List ℕ)
      → length addr ≡ 16
      → k.read_buf ptr 28 ≡ some (10 ∷ 0 ∷ p1 ∷ p0 ∷ f0 ∷ f1 ∷ f2 ∷ f3 ∷ addr ++ rest)
      → Reports l k (p1 * 256 + p0) (IpAddr.v6 addr)
  unfolding handle_net_connect parse_event_type
  connect_v6 f0 f1 f2 f3 addr rest len read =
      rw (at_ptr, ptr_test, read, reserved)
        (
          _,
          refl,
          ap₂
              (λ x n.
                (EventType.network Direction.outbound (IpAddr.v6 x) n Proto.tcp, Severity.info))
              (taken _) port,
          refl,
        )
    where
      first : take 16 (addr ++ rest) ≡ addr
      first = take-append 16 addr rest (omega arith) ∙ take_all 16 addr (omega arith)

      taken : (x : List ℕ) → take 16 (take 16 (addr ++ rest) ++ x) ≡ addr
      taken x =
          ap (λ y. take 16 (y ++ x)) first
          ∙ take-append 16 addr x (omega arith)
          ∙ take_all 16 addr (omega arith)

      port : (p1 * 256 + p0) % 256 + (p1 * 256 + p0) / 256 * 256 ≡ p1 * 256 + p0
      port = omega arith
