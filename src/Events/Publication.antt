-- ===== src/Events/Publication.antt =====
-- apps/lab-runtime/src/events.rs: the publication of a configuration apply, prepared and reserved
-- before its activation is durable, then committed or cancelled.
-- The debug assertions are left out.
use lab_runtime.Base.{
  ℕ, ◌+◌, Bool, true, false, ◌||◌, not, u64_eq, if◌then◌else◌, u64_max, duration_max, Option, none,
  some, List, [], ◌∷◌, ◌++◌, length, checked_add, PartialEq, Result, ok, err, guard, ok_or,
  and_then, Act,
}
use lab_runtime.Sessions.Types.{Text}
use lab_runtime.Events.Targets.{Target, key, key_is, key_before, sort_targets, has_key}
use lab_runtime.Events.Log.{
  EventError, Subject, Body, EventRecord, PublicationReservation, EventLog, event_record, fits,
  publish, put_fact,
}

pub record PreparedEvent (Json : Type 0) : Type 0 where
  pub target : Target
  pub data_now : Json
  pub record_data : Json

pub record PreparedEventPublication (Json : Type 0) : Type 0 where
  pub reservation_id : ℕ
  pub events : List (PreparedEvent Json)

module _ {Json : Type 0} where
  -- `sort_by_key`, which is stable.
  unfoldable pub insert_event :
      PreparedEvent Json → List (PreparedEvent Json) → List (PreparedEvent Json)
  insert_event e [] = e ∷ []
  insert_event e (f ∷ fs) =
      let rest = insert_event e fs in
      if key_before (key f.target) (key e.target) || key_is (key f.target) (key e.target)
      then f ∷ rest
      else e ∷ f ∷ fs

  unfoldable pub sort_events :
      List (PreparedEvent Json) → List (PreparedEvent Json) → List (PreparedEvent Json)
  sort_events sorted [] = sorted
  sort_events sorted (e ∷ es) = sort_events (insert_event e sorted) es

  unfoldable pub has_pair : List (PreparedEvent Json) → Bool
  has_pair [] = false
  has_pair (e ∷ []) = false
  has_pair (e ∷ f ∷ fs) = key_is (key e.target) (key f.target) || has_pair (f ∷ fs)

  -- The record of the largest sequence and time fits.
  unfoldable pub validate_record_bound :
      (EventRecord Json → Option ℕ) → Text → Target → Json → Result EventError (Unit {0})
  validate_record_bound size boot t d =
      guard
        (fits
          (size (event_record boot u64_max duration_max (Subject.of_target t) (Body.plain d) none)))
        EventError.oversized

  unfoldable pub validate_events :
      (EventRecord Json → Option ℕ)
      → EventLog Json
      → List (PreparedEvent Json)
      → Result EventError (Unit {0})
  validate_events size l [] = ok tt
  validate_events size l (e ∷ es) =
      and_then (guard (not (has_key l.targets (key e.target))) EventError.reservation_error) λ _.
        and_then (validate_record_bound size l.boot_id e.target e.data_now)
          λ _. validate_events size l es

  unfoldable pub has_reservation : EventLog Json → Bool
  has_reservation l = elim l.publication_reservation [ none ↦ false | some r ↦ true ]

  -- The checks of a publication, and its identity. `gathered` are the facts of the Runtime's prepared
  -- instruments and controllers.
  unfoldable pub check_publication :
      (EventRecord Json → Option ℕ)
      → Option (List (PreparedEvent Json))
      → EventLog Json
      → Result EventError (List (PreparedEvent Json))
  check_publication size gathered l =
      and_then (guard (not (has_reservation l)) EventError.reservation_error) λ _.
        and_then (ok_or gathered EventError.reservation_error) λ found.
          and_then (guard (not (has_pair (sort_events [] found))) EventError.reservation_error) λ _.
            and_then (validate_events size l (sort_events [] found)) λ _.
              and_then
                (ok_or (checked_add l.sequence (length (sort_events [] found)))
                  EventError.exhausted)
                λ _.
                  and_then
                    (ok_or (checked_add l.next_publication_reservation 1) EventError.exhausted)
                    λ _. ok (sort_events [] found)

  unfoldable pub reserve :
      Result EventError (List (PreparedEvent Json))
      → Act (EventLog Json) EventError (PreparedEventPublication Json)
  reserve (err e) l = (err e, l)
  reserve (ok es) l = (
    ok (record { reservation_id = l.next_publication_reservation; events = es }),
    record l {
      next_publication_reservation = l.next_publication_reservation + 1;
      publication_reservation =
          some (record { id = l.next_publication_reservation; capacity = length es });
    },
  )

  unfoldable pub prepare_simple_device_publication :
      (EventRecord Json → Option ℕ)
      → Option (List (PreparedEvent Json))
      → Act (EventLog Json) EventError (PreparedEventPublication Json)
  prepare_simple_device_publication size gathered l = reserve (check_publication size gathered l) l

  -- `none` is the panic of `expect`.
  unfoldable pub release : Option PublicationReservation → EventLog Json → Option (EventLog Json)
  release none l = none
  release (some r) l = some (record l { publication_reservation = none })

  unfoldable pub cancel_simple_device_publication :
      PreparedEventPublication Json → EventLog Json → Option (EventLog Json)
  cancel_simple_device_publication p l = release l.publication_reservation l

module _ {Json : Type 0} ⦃same : PartialEq Json⦄ where
  unfoldable pub commit_numbered :
      ℕ → PreparedEvent Json → EventLog Json → Option ℕ → Option (EventLog Json)
  commit_numbered at e l none = none
  commit_numbered at e l (some n) =
      let r =
        event_record l.boot_id n at (Subject.of_target e.target) (Body.plain e.record_data) none in
      some (record (publish r l) {
        targets = l.targets ++ e.target ∷ [];
        facts = put_fact (key e.target) e.data_now l.facts;
      })

  -- An event takes the next sequence; `none` is the panic of `expect`.
  unfoldable pub commit_event : ℕ → PreparedEvent Json → EventLog Json → Option (EventLog Json)
  commit_event at e l = commit_numbered at e l (checked_add l.sequence 1)

  unfoldable pub and_commit :
      Option (EventLog Json) → (EventLog Json → Option (EventLog Json)) → Option (EventLog Json)
  and_commit none f = none
  and_commit (some l) f = f l

  unfoldable pub commit_events :
      ℕ → List (PreparedEvent Json) → EventLog Json → Option (EventLog Json)
  commit_events at [] l = some l
  commit_events at (e ∷ es) l = and_commit (commit_event at e l) (commit_events at es)

  unfoldable pub with_sorted : EventLog Json → EventLog Json
  with_sorted l = record l { targets = sort_targets l.targets }

  unfoldable pub commit_simple_device_publication :
      PreparedEventPublication Json → ℕ → EventLog Json → Option (EventLog Json)
  commit_simple_device_publication p at l =
      and_commit (release l.publication_reservation l)
        λ m. and_commit (commit_events at p.events m) λ done. some (with_sorted done)
