-- ===== src/Adapter/Tetragon/Stream.antt =====
-- `connect_and_stream` and `next_event` of vectorguard/src/adapter/tetragon.rs, and the order in which
-- events are delivered.
pub mod Order
use vector_guard.Prelude.{
  Bool, List, Option, Text, [], none, some, suc, true, zero, ℕ, ◌%◌, ◌++◌, ◌+◌, ◌^◌, ◌∷◌,
}
use vector_guard.Event.{IpAddr, NormalizedEvent}
use vector_guard.Adapter.Tetragon.{Message, convert_response}

pub record Tetragon (J : Type 0) : Type 0 where
  pub next_id : ℕ
  pub buffer : List (NormalizedEvent J)

-- A connection: it fails, or brings responses until it ends, with an error or without.
pub data Connection : Type 0 where
  refused : Connection
  served : List (Option Message) → Bool → Connection

-- `Vec::pop`
unfoldable pub pop_last {ℓ} : {A : Type ℓ} → List A → Option (A × List A)
pop_last [] = none
pop_last (x ∷ xs) = elim (pop_last xs) [ none ↦ some (x, []) | some (l, r) ↦ some (l, x ∷ r) ]

module _ {J : Type 0} (parse_ip : Text → Option IpAddr) (null : J) where
  abbrev pub push_converted : Tetragon J → Option (NormalizedEvent J) → Tetragon J
  push_converted t none = t
  push_converted t (some ev) = record {
    next_id = (t.next_id + 1) % 2 ^ 64;
    buffer = t.buffer ++ ev ∷ [];
  }

  unfoldable pub stream : Tetragon J → List (Option Message) → Tetragon J
  unfolding convert_response
  stream t [] = t
  stream t (resp ∷ resps) =
      stream (push_converted t (convert_response parse_ip null t.next_id resp)) resps

  -- `connect_and_stream`, which returns when the stream has ended; whether it reports an error.
  abbrev pub connect_and_stream : Tetragon J → Connection → Tetragon J × Bool
  connect_and_stream t refused = (t, true)
  connect_and_stream t (served resps fails) = (stream t resps, fails)

  -- `next_event` over the connections to come: after an error it waits and connects again. `none`: it
  -- still waits when they are used up.
  unfoldable pub next_event :
      Tetragon J → List Connection → Option (NormalizedEvent J × (Tetragon J × List Connection))
  unfolding pop_last stream
  next_event t [] = elim (pop_last t.buffer) [
    | none ↦ none
    | some (ev, buffer) ↦ some (ev, (record t { buffer = buffer }, []))
  ]
  next_event t (c ∷ cs) = elim (pop_last t.buffer) [
    | none ↦ next_event (connect_and_stream t c).0 cs
    | some (ev, buffer) ↦ some (ev, (record t { buffer = buffer }, c ∷ cs))
  ]

  -- The events of `n` calls.
  unfoldable pub deliver : ℕ → Tetragon J → List Connection → List (NormalizedEvent J)
  unfolding next_event
  deliver zero t cs = []
  deliver (suc n) t cs = elim (next_event t cs) [
    | none ↦ []
    | some (ev, (u, ds)) ↦ ev ∷ deliver n u ds
  ]
