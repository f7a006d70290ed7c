-- ===== src/Events/Pending.antt =====
-- apps/lab-runtime/src/events.rs: every operation leaves the sequences of a prepared publication free.
use lab_runtime.Base.{
  ℕ, ◌+◌, ◌≤◌, ◌≡◌, inl, inr, refl, subst, ◌∙◌, true, not, u64_eq, PartialEq, u64_max, Option, none,
  some, List, [], ◌∷◌, length, Result, ok, err, guard, ok_or, arith, Bool-cases, Result-cases,
  checked_add, run_on_keeps, after_pass,
}
use lab_runtime.Sessions.Types.{Text}
use lab_runtime.Events.Targets.{Target, key, tracks}
use lab_runtime.Events.Log.{
  EventError, Subject, Body, EventRecord, PublicationReservation, EventLog, event_record, publish,
  held_capacity, next_sequence, prepared, publish_if, append, note, is_known, find_fact,
  observe_target, observe_targets, track,
}
use lab_runtime.Events.Publication.{
  PreparedEvent, PreparedEventPublication, has_reservation, sort_events, has_pair, validate_events,
  check_publication, reserve, prepare_simple_device_publication, release,
}

module _ {Json : Type 0} where
  -- The publication is reserved, and its sequences are free.
  pub record Pending (p : PreparedEventPublication Json) (l : EventLog Json) : Type 0 where
    pub reserved :
        l.publication_reservation
        ≡ some (record { id = p.reservation_id; capacity = length p.events })
    pub free : l.sequence + length p.events ≤ u64_max

  pub same_pending :
      (p : PreparedEventPublication Json) (l m : EventLog Json)
      → m.publication_reservation ≡ l.publication_reservation
      → m.sequence ≡ l.sequence
      → Pending p l
      → Pending p m
  same_pending p l m a b q = record { reserved = a ∙ q.reserved; free = omega (arith, b, q.free) }

  next_sequence_free :
      (c n : ℕ) (l : EventLog Json) → held_capacity l ≡ c → next_sequence l ≡ ok n → n + c ≤ u64_max
  unfolding next_sequence checked_add
  next_sequence_free c n l held h = let h' = rw held at h in ground (arith, h')

  prepared_free :
      (size : EventRecord Json → Option ℕ) (at : ℕ) (s : Subject) (d : Body Json)
      (cause : Option (Text × ℕ)) (c : ℕ) (l : EventLog Json) (r : EventRecord Json)
      → held_capacity l ≡ c
      → prepared size at s d cause l ≡ ok r
      → r.seq + c ≤ u64_max
  unfolding prepared event_record
  prepared_free size at s d cause c l r held h = elim (Result-cases (next_sequence l)) [
    | inl (n, e) ↦ let room = next_sequence_free c n l held e in ground (arith, e, room)
    | inr (b, e) ↦ absurd (let h' = rw e at h in ground (arith, h'))
  ]

  held_pending :
      (p : PreparedEventPublication Json) (l : EventLog Json)
      → Pending p l
      → held_capacity l ≡ length p.events
  unfolding held_capacity
  held_pending p l q = rw q.reserved refl

  pub append-Pending :
      (size : EventRecord Json → Option ℕ) (at : ℕ) (s : Subject) (d : Body Json)
      (cause : Option (Text × ℕ)) (p : PreparedEventPublication Json) (l : EventLog Json)
      → Pending p l
      → Pending p (append size at s d cause l).1
  unfolding append publish_if publish
  append-Pending size at s d cause p l q = elim (Result-cases (prepared size at s d cause l)) [
    | inl (r, e) ↦ rw e (record { reserved = q.reserved; free = taken r e })
    | inr (b, e) ↦ rw e q
  ]
    where
      taken :
          (r : EventRecord Json)
          → prepared size at s d cause l ≡ ok r
          → r.seq + length p.events ≤ u64_max
      taken r e = prepared_free size at s d cause (length p.events) l r (held_pending p l q) e

  pub track-Pending :
      (t : Target) (p : PreparedEventPublication Json) (l : EventLog Json)
      → Pending p l
      → Pending p (track t l)
  unfolding track
  track-Pending t p l q = elim (Bool-cases (tracks l.targets t)) [
    | inl e ↦ rw e q
    | inr e ↦ rw e (same_pending p l _ refl refl q)
  ]

  check_publication_refused :
      (size : EventRecord Json → Option ℕ) (gathered : Option (List (PreparedEvent Json)))
      (l : EventLog Json)
      → has_reservation l ≡ true
      → check_publication size gathered l ≡ err EventError.reservation_error
  unfolding check_publication
  check_publication_refused size gathered l h = rw h refl

  has_reservation-Pending :
      (p : PreparedEventPublication Json) (l : EventLog Json)
      → Pending p l
      → has_reservation l ≡ true
  unfolding has_reservation
  has_reservation-Pending p l q = rw q.reserved refl

  -- No second publication is prepared.
  pub prepare_simple_device_publication-Pending :
      (size : EventRecord Json → Option ℕ) (gathered : Option (List (PreparedEvent Json)))
      (p : PreparedEventPublication Json) (l : EventLog Json)
      → Pending p l
      → Pending p (prepare_simple_device_publication size gathered l).1
  unfolding prepare_simple_device_publication reserve
  prepare_simple_device_publication-Pending size gathered p l q =
      rw (check_publication_refused size gathered l (has_reservation-Pending p l q)) q

  pub check_publication_free :
      (size : EventRecord Json → Option ℕ) (gathered : Option (List (PreparedEvent Json)))
      (l : EventLog Json) (es : List (PreparedEvent Json))
      → check_publication size gathered l ≡ ok es
      → l.sequence + length es ≤ u64_max
  unfolding check_publication checked_add
  check_publication_free size gathered l es h =
      after_pass (guard (not (has_reservation l)) EventError.reservation_error) _ es h λ _ _ h.
        after_pass (ok_or gathered EventError.reservation_error) _ es h λ found _ h.
          after_pass (guard (not (has_pair (sort_events [] found))) EventError.reservation_error) _
            es h
            λ _ _ h. after_pass (validate_events size l (sort_events [] found)) _ es h λ _ _ h.
              after_pass
                (ok_or (checked_add l.sequence (length (sort_events [] found)))
                  EventError.exhausted)
                _ es h
                λ n room h.
                  after_pass
                    (ok_or (checked_add l.next_publication_reservation 1) EventError.exhausted) _ es
                    h λ _ _ h. ground (arith, room, h)

  pub reserve-Pending :
      (r : Result EventError (List (PreparedEvent Json))) (p : PreparedEventPublication Json)
      (l m : EventLog Json)
      → ((es : List (PreparedEvent Json)) → r ≡ ok es → l.sequence + length es ≤ u64_max)
      → reserve r l ≡ (ok p, m)
      → Pending p m
  unfolding reserve
  reserve-Pending (err e) p l m room h = absurd (ground (arith, h))
  reserve-Pending (ok es) p l m room h =
      subst (λ (x : Result EventError (PreparedEventPublication Json) × EventLog Json). Held x) h
        (record { reserved = refl; free = room es refl })
    where
      Held : Result EventError (PreparedEventPublication Json) × EventLog Json → Type 0
      Held (ok q, k) = Pending q k
      Held (err e, k) = Unit {0}

  pub release-Pending :
      (p : PreparedEventPublication Json) (l : EventLog Json)
      → Pending p l
      → release l.publication_reservation l ≡ some (record l { publication_reservation = none })
  unfolding release
  release-Pending p l q = by_value l.publication_reservation q.reserved
    where
      by_value :
          (o : Option PublicationReservation)
          → o ≡ some (record { id = p.reservation_id; capacity = length p.events })
          → release o l ≡ some (record l { publication_reservation = none })
      by_value none e = ground (arith, e)
      by_value (some r) e = refl

module _ {Json : Type 0} ⦃same : PartialEq Json⦄ where
  note-Pending :
      (k : Text) (d : Json) (p : PreparedEventPublication Json)
      (r : Result EventError (Unit {0}) × EventLog Json)
      → Pending p r.1
      → Pending p (note k d r).1
  unfolding note
  note-Pending k d p (ok u, l) q = same_pending p l _ refl refl q
  note-Pending k d p (err e, l) q = q

  observe_target-Pending :
      (size : EventRecord Json → Option ℕ) (at : ℕ) (cause : Option (Text × ℕ)) (t : Target)
      (o : Option Json) (p : PreparedEventPublication Json) (l : EventLog Json)
      → Pending p l
      → Pending p (observe_target size at cause t o l).1
  unfolding observe_target
  observe_target-Pending size at cause t none p l q = q
  observe_target-Pending size at cause t (some d) p l q =
      elim (Bool-cases (is_known (find_fact (key t) l.facts) d)) [
        | inl e ↦ rw e q
        | inr e ↦ rw e (
            note-Pending (key t) d p (append size at (Subject.of_target t) (Body.plain d) cause l)
              (append-Pending size at (Subject.of_target t) (Body.plain d) cause p l q))
      ]

  pub observe_targets-Pending :
      (size : EventRecord Json → Option ℕ) (at : ℕ) (cause : Option (Text × ℕ))
      (query : Target → Option Json) (ts : List Target) (p : PreparedEventPublication Json)
      (l : EventLog Json)
      → Pending p l
      → Pending p (observe_targets size at cause query ts l).1
  unfolding observe_targets
  observe_targets-Pending size at cause query [] p l q = q
  observe_targets-Pending size at cause query (t ∷ ts) p l q =
      run_on_keeps (λ (m : EventLog Json). Pending p m) (observe_target size at cause t (query t) l)
        _ (observe_target-Pending size at cause t (query t) p l q)
        (λ _ m held. observe_targets-Pending size at cause query ts p m held)
