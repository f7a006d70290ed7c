-- ===== src/Events/Log.antt =====
-- apps/lab-runtime/src/events.rs: EventLog with append, observation and replay. A JSON value is any type
-- with equality; the encoded size of a record, the facts of the Runtime and the registered
-- signals and outputs are arguments.
use lab_runtime.Base.{
  ℕ, ◌-◌, Bool, false, ltb, leb, min, ◌==◌, u64_eq, PartialEq, if◌then◌else◌, Option, none, some,
  List, [], ◌∷◌, ◌++◌, select, take, push_bounded, checked_add, Result, ok, err, guard, ok_or,
  and_then, Act, run_on,
}
use lab_runtime.Sessions.Types.{Text}
use lab_runtime.Events.Targets.{Target, key, key_is, sort_targets, tracks}

abbrev pub event_ring_limit : ℕ
event_ring_limit = 1024

abbrev pub event_size_limit : ℕ
event_size_limit = 4096

pub data EventError : Type 0 where
  gap future exhausted oversized reservation_error : EventError

-- What a record is about, and the data of the records that the log itself builds.
pub data Subject : Type 0 where
  of_target : Target → Subject
  of_operation : Text → Subject
  of_host : Subject
  of_recorder : Option Text → Subject
  of_resource : ℕ → Subject
  of_configuration : Subject

pub data Body (Json : Type 0) : Type 0 where
  plain : Json → Body Json
  host_body : Text → Json → Body Json

pub record EventRecord (Json : Type 0) : Type 0 where
  pub boot_id : Text
  pub seq : ℕ
  pub published_at : ℕ
  pub subject : Subject
  pub data_of : Body Json
  pub request_id : Option (Text × ℕ)

pub record Fact (Json : Type 0) : Type 0 where
  pub fact_key : Text
  pub fact_data : Json

pub record PublicationReservation : Type 0 where
  pub id : ℕ
  pub capacity : ℕ

pub record EventLog (Json : Type 0) : Type 0 where
  pub boot_id : Text
  pub sequence : ℕ
  pub targets : List Target
  pub facts : List (Fact Json)
  pub ring : List (EventRecord Json)
  pub next_publication_reservation : ℕ
  pub publication_reservation : Option PublicationReservation

unfoldable pub add_missing : List Target → List Target → List Target
add_missing [] ts = ts
add_missing (d ∷ ds) ts = add_missing ds (if tracks ts d then ts else ts ++ d ∷ [])

unfoldable pub fits : Option ℕ → Bool
fits none = false
fits (some n) = leb n event_size_limit

module _ {Json : Type 0} ⦃same : PartialEq Json⦄ where
  unfoldable pub find_fact : Text → List (Fact Json) → Option Json
  find_fact k [] = none
  find_fact k (f ∷ fs) =
      let rest = find_fact k fs in if key_is f.fact_key k then some f.fact_data else rest

  -- `BTreeMap::insert`; the order of the facts is not observed.
  unfoldable pub put_fact : Text → Json → List (Fact Json) → List (Fact Json)
  put_fact k d [] = record { fact_key = k; fact_data = d } ∷ []
  put_fact k d (f ∷ fs) =
      let rest = put_fact k d fs in
      if key_is f.fact_key k then record { fact_key = k; fact_data = d } ∷ fs else f ∷ rest

  unfoldable pub is_known : Option Json → Json → Bool
  is_known none d = false
  is_known (some c) d = c == d

module _ {Json : Type 0} where
  unfoldable pub fresh_log : Text → List Target → List (Fact Json) → EventLog Json
  fresh_log boot ts fs = record {
    boot_id = boot;
    sequence = 0;
    targets = sort_targets ts;
    facts = fs;
    ring = [];
    next_publication_reservation = 1;
    publication_reservation = none;
  }

  unfoldable pub set_boot_id : Text → EventLog Json → EventLog Json
  set_boot_id boot l = record l {
    boot_id = boot;
    sequence = 0;
    ring = [];
    next_publication_reservation = 1;
  }

  -- `track_component`, `track_controller` and `track_reference`.
  unfoldable pub track : Target → EventLog Json → EventLog Json
  track t l =
      if tracks l.targets t then l else record l { targets = sort_targets (l.targets ++ t ∷ []) }

  unfoldable pub track_new_signals : List Target → EventLog Json → EventLog Json
  track_new_signals discovered l = record l {
    targets = sort_targets (add_missing discovered l.targets);
  }

  -- The capacity that a publication holds back.
  unfoldable pub held_capacity : EventLog Json → ℕ
  held_capacity l = elim l.publication_reservation [ none ↦ 0 | some r ↦ r.capacity ]

  unfoldable pub next_sequence : EventLog Json → Result EventError ℕ
  next_sequence l =
      and_then (ok_or (checked_add l.sequence 1) EventError.exhausted)
        λ n. and_then (ok_or (checked_add n (held_capacity l)) EventError.exhausted) λ _. ok n

  unfoldable pub publish : EventRecord Json → EventLog Json → EventLog Json
  publish r l = record l { sequence = r.seq; ring = push_bounded event_ring_limit r l.ring }

  unfoldable pub event_record :
      Text → ℕ → ℕ → Subject → Body Json → Option (Text × ℕ) → EventRecord Json
  event_record boot n at s d cause = record {
    boot_id = boot;
    seq = n;
    published_at = at;
    subject = s;
    data_of = d;
    request_id = cause;
  }

  -- The record of an append, or why there is none.
  unfoldable pub prepared :
      (EventRecord Json → Option ℕ)
      → ℕ
      → Subject
      → Body Json
      → Option (Text × ℕ)
      → EventLog Json
      → Result EventError (EventRecord Json)
  prepared size at s d cause l = and_then (next_sequence l) λ n.
      and_then (guard (fits (size (event_record l.boot_id n at s d cause))) EventError.oversized)
        λ _. ok (event_record l.boot_id n at s d cause)

  unfoldable pub publish_if :
      Result EventError (EventRecord Json) → Act (EventLog Json) EventError (Unit {0})
  publish_if (ok r) l = (ok tt, publish r l)
  publish_if (err e) l = (err e, l)

  unfoldable pub append :
      (EventRecord Json → Option ℕ)
      → ℕ
      → Subject
      → Body Json
      → Option (Text × ℕ)
      → Act (EventLog Json) EventError (Unit {0})
  append size at s d cause l = publish_if (prepared size at s d cause l) l

  -- The public appends, apart from observation.
  unfoldable pub operation_terminal :
      (EventRecord Json → Option ℕ)
      → ℕ
      → Text
      → ℕ
      → Json
      → Act (EventLog Json) EventError (Unit {0})
  operation_terminal size at scope seq d =
      append size at (Subject.of_operation scope) (Body.plain d) (some (scope, seq))

  unfoldable pub host_state :
      (EventRecord Json → Option ℕ) → ℕ → Text → Json → Act (EventLog Json) EventError (Unit {0})
  host_state size at state d = append size at Subject.of_host (Body.host_body state d) none

  unfoldable pub recorder_state :
      (EventRecord Json → Option ℕ)
      → ℕ
      → Option Text
      → Json
      → Act (EventLog Json) EventError (Unit {0})
  recorder_state size at id d = append size at (Subject.of_recorder id) (Body.plain d) none

  unfoldable pub resource_state :
      (EventRecord Json → Option ℕ) → ℕ → ℕ → Json → Act (EventLog Json) EventError (Unit {0})
  resource_state size at id d = append size at (Subject.of_resource id) (Body.plain d) none

  unfoldable pub configuration_state :
      (EventRecord Json → Option ℕ) → ℕ → Json → Act (EventLog Json) EventError (Unit {0})
  configuration_state size at d = append size at Subject.of_configuration (Body.plain d) none

  -- The first retained sequence less one, or the last sequence of an empty ring.
  unfoldable pub oldest_cursor : EventLog Json → ℕ
  oldest_cursor l = elim l.ring [
    | [] ↦ l.sequence
    | r ∷ rs ↦ if r.seq == 0 then l.sequence else r.seq - 1
  ]

  unfoldable pub scan_after : ℕ → ℕ → EventLog Json → Result EventError (List (EventRecord Json))
  scan_after cursor limit l =
      if ltb l.sequence cursor
      then err EventError.future
      else if ltb cursor (oldest_cursor l)
      then err EventError.gap
      else ok (take (min limit 32) (select (λ (r : EventRecord Json). ltb cursor r.seq) l.ring))

module _ {Json : Type 0} ⦃same : PartialEq Json⦄ where
  unfoldable pub note :
      Text
      → Json
      → Result EventError (Unit {0}) × EventLog Json
      → Result EventError (Unit {0}) × EventLog Json
  note k d (ok u, l) = (ok u, record l { facts = put_fact k d l.facts })
  note k d (err e, l) = (err e, l)

  -- One target of an observation: a fact that changed is published, then remembered.
  unfoldable pub observe_target :
      (EventRecord Json → Option ℕ)
      → ℕ
      → Option (Text × ℕ)
      → Target
      → Option Json
      → Act (EventLog Json) EventError (Unit {0})
  observe_target size at cause t none l = (ok tt, l)
  observe_target size at cause t (some d) l =
      if is_known (find_fact (key t) l.facts) d
      then (ok tt, l)
      else note (key t) d (append size at (Subject.of_target t) (Body.plain d) cause l)

  unfoldable pub observe_targets :
      (EventRecord Json → Option ℕ)
      → ℕ
      → Option (Text × ℕ)
      → (Target → Option Json)
      → List Target
      → Act (EventLog Json) EventError (Unit {0})
  observe_targets size at cause query [] l = (ok tt, l)
  observe_targets size at cause query (t ∷ ts) l =
      run_on (observe_target size at cause t (query t) l)
        λ _. observe_targets size at cause query ts

  unfoldable pub observe :
      (EventRecord Json → Option ℕ)
      → List Target
      → (Target → Option Json)
      → ℕ
      → Option (Text × ℕ)
      → Act (EventLog Json) EventError (Unit {0})
  observe size discovered query at cause l =
      let tracked = track_new_signals discovered l in
      observe_targets size at cause query tracked.targets tracked
