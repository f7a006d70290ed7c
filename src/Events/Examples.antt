-- ===== src/Events/Examples.antt =====
-- apps/lab-runtime/src/events.rs: a log of one signal that observes it, prepares a publication of a
-- controller and commits it after a host event.
use lab_runtime.Base.{
  map, ℕ, ◌+◌, ◌≡◌, refl, Option, some, none, List, [], ◌∷◌, ◌++◌, length, ok, u64_eq, checked_add,
}
use lab_runtime.Events.Targets.{Target, sort_targets, has_key, key, key_is}
use lab_runtime.Events.Log.{
  EventRecord, EventLog, fresh_log, observe, observe_targets, observe_target, track_new_signals,
  add_missing, find_fact, is_known, host_state, append, prepared, next_sequence, held_capacity,
  fits, event_record, put_fact, note, publish_if, publish,
}
use lab_runtime.Events.Publication.{
  release, and_commit, commit_events, commit_event, commit_numbered, with_sorted, PreparedEvent,
  PreparedEventPublication, check_publication, has_reservation, sort_events, insert_event, has_pair,
  validate_events, validate_record_bound, reserve, prepare_simple_device_publication,
  commit_simple_device_publication,
}
use lab_runtime.Events.History.{append_news, can_append, is_small}
use lab_runtime.Events.Observing.{observe_news, target_news, after_ok}
use lab_runtime.Events.Committing.{commit_news}
use lab_runtime.Events.Calls.{LogCall, call, calls, published, news_of, if_some}
use lab_runtime.Events.Reserved.{is_waiting, all_waiting, commit_succeeds}

-- A JSON value is a number here, and every record takes 100 bytes.
abbrev size : EventRecord ℕ → Option ℕ
size r = some 100

abbrev probe : Target
probe = Target.signal_target (record { instrument = 4; parameter = 9 })

abbrev query : Target → Option ℕ
query t = some 7

abbrev log : EventLog ℕ
log = record {
  boot_id = 98 ∷ [];
  sequence = 0;
  targets = probe ∷ [];
  facts = [];
  ring = [];
  next_publication_reservation = 1;
  publication_reservation = none;
}

log_made : fresh_log (98 ∷ []) (probe ∷ []) [] ≡ log
unfolding fresh_log sort_targets
log_made = refl

abbrev prepared_events : List (PreparedEvent ℕ)
prepared_events = record { target = Target.controller_target 2; data_now = 5; record_data = 5 } ∷ []

abbrev publication : PreparedEventPublication ℕ
publication = record { reservation_id = 1; events = prepared_events }

abbrev reserved_log : EventLog ℕ
reserved_log = record log {
  next_publication_reservation = 2;
  publication_reservation = some (record { id = 1; capacity = 1 });
}

prepared_once :
    prepare_simple_device_publication size (some prepared_events) log
    ≡ (ok publication, reserved_log)
unfolding prepare_simple_device_publication check_publication has_reservation sort_events
    insert_event has_pair validate_events has_key key key_is validate_record_bound fits event_record
    checked_add reserve
prepared_once = refl

abbrev meanwhile : List (LogCall ℕ)
meanwhile = LogCall.observes [] query 10 none ∷ LogCall.hosts 11 (114 ∷ []) 3 ∷ []

abbrev whole : List (LogCall ℕ)
whole = LogCall.prepares (some prepared_events) ∷ meanwhile ++ LogCall.commits publication 12 ∷ []

two_published : (calls size meanwhile reserved_log).sequence ≡ 2
unfolding calls call observe observe_targets observe_target track_new_signals add_missing
    sort_targets find_fact key is_known host_state append prepared next_sequence held_capacity fits
    event_record checked_add note publish_if publish
two_published = refl

-- The fact of the signal, the host event and the event of the publication, numbered.
three_published :
    map (λ (r : EventRecord ℕ). r.published_at) (published size whole log) ≡ 10 ∷ 11 ∷ 12 ∷ []
unfolding prepare_simple_device_publication check_publication has_reservation sort_events
    insert_event has_pair validate_events has_key key key_is validate_record_bound fits event_record
    checked_add reserve calls call observe observe_targets observe_target track_new_signals
    add_missing sort_targets find_fact is_known host_state append prepared next_sequence
    held_capacity note publish_if publish published news_of append_news can_append is_small
    observe_news target_news after_ok if_some commit_news commit_simple_device_publication release
    and_commit commit_events commit_event commit_numbered with_sorted put_fact
three_published = refl

commit_succeeds_example :
    (done : EventLog ℕ) × (commit_simple_device_publication publication 12
        (calls size meanwhile reserved_log)
      ≡ some done)
    × (done.sequence ≡ (calls size meanwhile reserved_log).sequence + length publication.events)
unfolding all_waiting is_waiting
commit_succeeds_example =
    commit_succeeds size (some prepared_events) publication log reserved_log meanwhile 12
      prepared_once refl
