-- ===== src/Adapter/Delivered.antt =====
-- What an adapter that follows a file delivers.
use vector_guard.Prelude.{
  Bool, List, Option, Text, [], ap, arith, false, if◌then◌else◌, map, none, not, refl, some, subst,
  true, ℕ, ◌%◌, ◌&&◌, ◌+◌, ◌^◌, ◌∷◌, ◌≡◌,
}
use vector_guard.Event.{NormalizedEvent}
use vector_guard.Adapter.{
  Attempt, Reader, error, take_line, take_read, try_once, run_adapter, send_pass,
}

-- The texts that the passes read, once the file is open.
abbrev pub texts_read : Bool → List Attempt → List Text
texts_read is_open [] = []
texts_read is_open (a ∷ passes) =
    let closed = texts_read false passes in
    let opened = texts_read true passes in
    if not is_open && not a.can_open
    then closed
    else elim a.read [ none ↦ opened | some [] ↦ opened | some (c ∷ s) ↦ (c ∷ s) ∷ opened ]

module _ {J : Type 0} (event_of_line : ℕ → Text → Option (NormalizedEvent J)) where
  -- The events of the lines, each with the next identifier.
  abbrev pub events_of : ℕ → List Text → List (NormalizedEvent J)
  events_of id [] = []
  events_of id (line ∷ lines) = elim (event_of_line id line) [
    | none ↦ events_of id lines
    | some ev ↦ ev ∷ events_of ((id + 1) % 2 ^ 64) lines
  ]

  abbrev heard : Attempt → Attempt × Bool
  heard a = (a, true)

  -- While the receiver listens, an adapter delivers exactly the events of the lines that it reads, in
  -- their order and with consecutive identifiers: failures to open or to read the file, its end, and
  -- lines that are no events lose nothing else.
  pub run_adapter-events :
      (r : Reader) (passes : List Attempt)
      → run_adapter event_of_line r (map (λ a. (a, true)) passes)
        ≡ events_of r.next_id (texts_read r.is_open passes)
  unfolding run_adapter try_once
  run_adapter-events r [] = refl
  run_adapter-events r (a ∷ passes) =
      go (λ q. run_adapter-events q passes) (not r.is_open && not a.can_open) refl a.read
    where
      rest : List (Attempt × Bool)
      rest = map heard passes

      Ih : Type 0
      Ih =
          (q : Reader)
          → run_adapter event_of_line q rest ≡ events_of q.next_id (texts_read q.is_open passes)

      line :
          Ih
          → (c : ℕ) (s : Text) (o : Option (NormalizedEvent J))
          → send_pass event_of_line
              (λ q. run_adapter event_of_line q rest)
              true
              (take_line event_of_line r.next_id o)
            ≡ elim o [
              | none ↦ events_of r.next_id (texts_read true passes)
              | some ev ↦ ev ∷ events_of ((r.next_id + 1) % 2 ^ 64) (texts_read true passes)
            ]
      line ih c s none = ih (record { is_open = true; next_id = r.next_id })
      line ih c s (some ev) =
          ap (λ evs. ev ∷ evs) (ih (record { is_open = true; next_id = (r.next_id + 1) % 2 ^ 64 }))

      go :
          Ih
          → (b : Bool) → (not r.is_open && not a.can_open) ≡ b
          → (read : Option Text)
          → send_pass event_of_line
              (λ q. run_adapter event_of_line q rest)
              true
              (if b then (r, error) else take_read event_of_line r.next_id read)
            ≡ events_of r.next_id (
                if b then texts_read false passes else elim read [
                  | none ↦ texts_read true passes
                  | some [] ↦ texts_read true passes
                  | some (c ∷ s) ↦ (c ∷ s) ∷ texts_read true passes
                ])
      go ih true e read =
          let shut : r.is_open ≡ false = ground arith in
          subst (λ b. run_adapter event_of_line r rest ≡ events_of r.next_id (texts_read b passes))
            shut (ih r)
      go ih false e none = ih (record { is_open = true; next_id = r.next_id })
      go ih false e (some []) = ih (record { is_open = true; next_id = r.next_id })
      go ih false e (some (c ∷ s)) = line ih c s (event_of_line r.next_id (c ∷ s))
