-- ===== src/Incident/Queue.antt =====
-- Which events reach the incident log, and what `record` answers.
use vector_guard.Prelude.{
  Bool, Bool-cases, Option, Text, [], arith, false, if◌then◌else◌, inl, inr, length, ltb, none, not,
  refl, some, true, ◌&&◌, ◌++◌, ◌<◌, ◌↔◌, ◌∙◌, ◌∷◌, ◌≡◌, ◌⊎◌,
}
use vector_guard.Event.{NormalizedEvent, is_incident}
use vector_guard.Incident.{
  IncidentRecord, Channel, capacity, record_of, send_line, record_event, try_send,
}

module _ {J : Type 0} (to_json : IncidentRecord → Option Text) (locked : Bool) (ch : Channel)
    (event : NormalizedEvent J) where
  -- The line of the event is put into the channel.
  pub record Queued (line : Text) : Type 0 where
    pub incident : is_incident event.action ≡ true
    pub serialized : to_json (record_of event) ≡ some line
    pub got_lock : locked ≡ true
    pub listening : ch.open_end ≡ true
    pub room : length ch.pending < capacity

  sent :
      (o : Option Text)
      → ((send_line locked ch o).0 ≡ ch)
        ⊎ ((line : Text) × (o ≡ some line)
            × (locked ≡ true)
            × (ch.open_end ≡ true)
            × (length ch.pending < capacity)
            × ((send_line locked ch o).0 ≡ record ch { pending = ch.pending ++ line ∷ [] }))
  sent none = inl refl
  sent (some json) = go locked ch.open_end refl refl
    where
      go :
          (a b : Bool)
          → locked ≡ a
          → ch.open_end ≡ b
          → ((send_line a ch (some json)).0 ≡ ch)
            ⊎ ((line : Text) × (some json ≡ some line)
                × (locked ≡ true)
                × (ch.open_end ≡ true)
                × (length ch.pending < capacity)
                × ((send_line a ch (some json)).0
                    ≡ record ch { pending = ch.pending ++ line ∷ [] }))
      go false b ea eb = inl refl
      go true b ea eb = elim (Bool-cases (ch.open_end && ltb (length ch.pending) capacity)) [
        | inl e ↦ inr (json, refl, ea, ground arith, ground arith, rw e refl)
        | inr e ↦ inl (rw e refl)
      ]

  -- A record changes the channel only by queueing the line of a Blocked, Alerted or Killed event
  -- that can be serialised, with the lock taken, the writer listening and less than 1024 lines
  -- waiting; then the line is the last of those that wait.
  pub record_event_queues :
      ((record_event to_json locked ch event).0 ≡ ch)
      ⊎ ((line : Text) × Queued line
          × ((record_event to_json locked ch event).0
              ≡ record ch { pending = ch.pending ++ line ∷ [] }))
  unfolding record_event
  record_event_queues = go (is_incident event.action) refl (to_json (record_of event)) refl
    where
      go :
          (a : Bool)
          → is_incident event.action ≡ a
          → (o : Option Text) → to_json (record_of event) ≡ o
          → let r = (if not a then (ch, false) else send_line locked ch o) in
            (r.0 ≡ ch)
            ⊎ ((line : Text) × Queued line
                × (r.0 ≡ record ch { pending = ch.pending ++ line ∷ [] }))
      go false ea o eo = inl refl
      go true ea o eo = elim (sent o) [
        | inl e ↦ inl e
        | inr (line, q, l, b, r, e) ↦ inr (
          line,
          record { incident = ea; serialized = eo ∙ q; got_lock = l; listening = b; room = r },
          e,
        )
      ]

  -- The converse.
  pub record_event-Queued :
      (line : Text)
      → Queued line
      → record_event to_json locked ch event
        ≡ (record ch { pending = ch.pending ++ line ∷ [] }, true)
  unfolding record_event
  record_event-Queued line q =
      step (is_incident event.action) (to_json (record_of event)) locked
        (ch.open_end && ltb (length ch.pending) capacity) q.incident q.serialized q.got_lock room
    where
      room : (ch.open_end && ltb (length ch.pending) capacity) ≡ true
      room = let a = q.listening in let b = q.room in ground arith

      step :
          (a : Bool) (o : Option Text) (b c : Bool)
          → a ≡ true
          → o ≡ some line
          → b ≡ true
          → c ≡ true
          → (if not a then (ch, false) else elim o as (λ _. Channel × Bool) [
            | none ↦ (ch, false)
            | some json ↦
                if b
                then if c
                  then (record ch { pending = ch.pending ++ json ∷ [] }, true)
                  else (ch, false)
                else (ch, true)
          ])
            ≡ (record ch { pending = ch.pending ++ line ∷ [] }, true)
      step a none b c ea eo eb ec = cc
      step a (some json) b c ea eo eb ec = ground arith

  -- `record` answers true exactly for a Blocked, Alerted or Killed event that can be serialised and
  -- whose line was queued or, with the lock taken by another, silently lost. For every other action
  -- it answers false.
  record_event_answers : ((record_event to_json locked ch event).1 ≡ true) ↔ (
      (is_incident event.action ≡ true)
      × ((line : Text) × (to_json (record_of event) ≡ some line))
      × ((locked ≡ false) ⊎ ((ch.open_end ≡ true) × (length ch.pending < capacity))))
  unfolding record_event
  record_event_answers = go (is_incident event.action) (to_json (record_of event)) locked
    where
      sends :
          (json : Text)
          → ((try_send ch json).1 ≡ true) ↔ ((ch.open_end ≡ true) × (length ch.pending < capacity))
      sends json = elim (Bool-cases (ch.open_end && ltb (length ch.pending) capacity)) [
        | inl e ↦ (λ h. (ground arith, ground arith), λ h. rw e refl)
        | inr e ↦ (λ h. cc (rw e at h), λ (a, b). absurd (clash e a b))
      ]
        where
          clash :
              (ch.open_end && ltb (length ch.pending) capacity) ≡ false
              → ch.open_end ≡ true
              → length ch.pending < capacity
              → ⊥
          clash e a b = ground arith

      go :
          (a : Bool) (o : Option Text) (b : Bool)
          → ((if not a then (ch, false) else send_line b ch o).1 ≡ true) ↔ (
              (a ≡ true)
              × ((line : Text) × (o ≡ some line))
              × ((b ≡ false) ⊎ ((ch.open_end ≡ true) × (length ch.pending < capacity))))
      go false o b = (λ h. cc, λ h. cc)
      go true none b = (λ h. cc, λ (x, (line, e), y). cc)
      go true (some json) false = (λ h. (refl, (json, refl), inl refl), λ h. refl)
      go true (some json) true = (
        λ h. (refl, (json, refl), inr ((sends json).0 h)),
        λ (x, y, z). elim z [ inl e ↦ cc | inr q ↦ (sends json).1 q ],
      )
