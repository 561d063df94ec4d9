-- ===== src/Adapter/Tetragon/Stream/Order.antt =====
-- The order in which the adapter for Tetragon delivers the events of a stream.
use vector_guard.Prelude.{
  Bool, List, Option, Text, [], ap, append-nil, append_assoc, arith, length, length-append, none,
  refl, some, suc, sym, zero, ℕ, ◌%◌, ◌++◌, ◌+◌, ◌^◌, ◌∙◌, ◌∷◌, ◌≡◌,
}
use vector_guard.Event.{IpAddr, NormalizedEvent}
use vector_guard.Adapter.Tetragon.{Message, convert_response}
use vector_guard.Adapter.Tetragon.Stream.{
  Tetragon, Connection, served, pop_last, push_converted, stream, connect_and_stream, next_event,
  deliver,
}

abbrev pub backwards {ℓ} : {A : Type ℓ} → List A → List A
backwards [] = []
backwards (x ∷ xs) = backwards xs ++ x ∷ []

backwards-snoc {ℓ} :
    {A : Type ℓ} (xs : List A) (x : A) → backwards (xs ++ x ∷ []) ≡ x ∷ backwards xs
backwards-snoc [] x = refl
backwards-snoc (y ∷ xs) x = ap (λ l. l ++ y ∷ []) (backwards-snoc xs x)

backwards-backwards {ℓ} : {A : Type ℓ} (xs : List A) → backwards (backwards xs) ≡ xs
backwards-backwards [] = refl
backwards-backwards (x ∷ xs) =
    backwards-snoc (backwards xs) x ∙ ap (λ l. x ∷ l) (backwards-backwards xs)

length-backwards {ℓ} : {A : Type ℓ} (xs : List A) → length (backwards xs) ≡ length xs
length-backwards [] = refl
length-backwards (x ∷ xs) =
    omega (arith, length-append (backwards xs) (x ∷ []), length-backwards xs)

pop_last-snoc {ℓ} : {A : Type ℓ} (xs : List A) (x : A) → pop_last (xs ++ x ∷ []) ≡ some (x, xs)
unfolding pop_last
pop_last-snoc [] x = refl
pop_last-snoc (y ∷ xs) x =
    ap (λ o. elim o [ none ↦ some (y, []) | some (l, r) ↦ some (l, y ∷ r) ]) (pop_last-snoc xs x)

module _ {J : Type 0} (parse_ip : Text → Option IpAddr) (null : J) where
  -- The adapter as `new` makes it, with the next identifier.
  abbrev pub fresh : ℕ → Tetragon J
  fresh id = record { next_id = id; buffer = [] }

  -- The events of the responses, in the order of their arrival.
  abbrev pub converted : ℕ → List (Option Message) → List (NormalizedEvent J)
  converted id [] = []
  converted id (resp ∷ resps) = elim (convert_response parse_ip null id resp) [
    | none ↦ converted id resps
    | some ev ↦ ev ∷ converted ((id + 1) % 2 ^ 64) resps
  ]

  stream-buffer :
      (t : Tetragon J) (resps : List (Option Message))
      → (stream parse_ip null t resps).buffer ≡ t.buffer ++ converted t.next_id resps
  unfolding stream
  stream-buffer t [] = sym (append-nil t.buffer)
  stream-buffer t (resp ∷ resps) =
      go (convert_response parse_ip null t.next_id resp) (λ u. stream-buffer u resps)
    where
      go :
          (o : Option (NormalizedEvent J))
          → ((u : Tetragon J)
              → (stream parse_ip null u resps).buffer ≡ u.buffer ++ converted u.next_id resps)
          → (stream parse_ip null (push_converted parse_ip null t o) resps).buffer
            ≡ t.buffer ++ elim o [
              | none ↦ converted t.next_id resps
              | some ev ↦ ev ∷ converted ((t.next_id + 1) % 2 ^ 64) resps
            ]
      go none ih = ih t
      go (some ev) ih =
          ih (push_converted parse_ip null t (some ev))
          ∙ append_assoc t.buffer (ev ∷ []) (converted ((t.next_id + 1) % 2 ^ 64) resps)

  next_event-snoc :
      (t : Tetragon J) (cs : List Connection) (xs : List (NormalizedEvent J))
      (x : NormalizedEvent J)
      → t.buffer ≡ xs ++ x ∷ []
      → next_event parse_ip null t cs ≡ some (x, (record t { buffer = xs }, cs))
  unfolding next_event
  next_event-snoc t [] xs x e =
      ap
        (λ o. elim o [
          | none ↦ none
          | some (ev, buffer) ↦ some (ev, (record t { buffer = buffer }, []))
        ])
        (ap pop_last e ∙ pop_last-snoc xs x)
  next_event-snoc t (c ∷ cs) xs x e =
      ap
        (λ o. elim o [
          | none ↦ next_event parse_ip null (connect_and_stream parse_ip null t c).0 cs
          | some (ev, buffer) ↦ some (ev, (record t { buffer = buffer }, c ∷ cs))
        ])
        (ap pop_last e ∙ pop_last-snoc xs x)

  deliver-backwards :
      (ys : List (NormalizedEvent J)) (t : Tetragon J) (cs : List Connection)
      → t.buffer ≡ backwards ys
      → deliver parse_ip null (length ys) t cs ≡ ys
  unfolding deliver
  deliver-backwards [] t cs e = refl
  deliver-backwards (y ∷ ys) t cs e =
      ap
        (λ o. elim o [
          | none ↦ []
          | some (ev, (u, ds)) ↦ ev ∷ deliver parse_ip null (length ys) u ds
        ])
        (next_event-snoc t cs (backwards ys) y e)
      ∙ ap (λ l. y ∷ l) (deliver-backwards ys (record t { buffer = backwards ys }) cs refl)

  deliver-served :
      (n id : ℕ) (resps : List (Option Message)) (fails : Bool) (cs : List Connection)
      → let t = fresh id in
        deliver parse_ip null n t (served resps fails ∷ cs)
        ≡ deliver parse_ip null n (stream parse_ip null t resps) cs
  unfolding deliver next_event pop_last
  deliver-served zero id resps fails cs = refl
  deliver-served (suc n) id resps fails cs = refl

  -- The events of a stream are delivered in the reverse of the order in which they arrived, and only
  -- once the stream has ended: with an empty buffer, as many calls of `next_event` as the stream brings
  -- events return exactly these events, the last one first.
  pub deliver-reversed :
      (id : ℕ) (resps : List (Option Message)) (fails : Bool) (cs : List Connection)
      → let evs = converted id resps in
        deliver parse_ip null (length evs) (fresh id) (served resps fails ∷ cs) ≡ backwards evs
  deliver-reversed id resps fails cs =
      let evs = converted id resps in
      let t = fresh id in
      deliver-served (length evs) id resps fails cs
      ∙ ap (λ n. deliver parse_ip null n (stream parse_ip null t resps) cs)
          (sym (length-backwards evs))
      ∙ deliver-backwards (backwards evs) (stream parse_ip null t resps) cs
          (stream-buffer t resps ∙ sym (backwards-backwards evs))
