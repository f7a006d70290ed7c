-- ===== src/Events/Reserved.antt =====
-- apps/lab-runtime/src/events.rs: the sequences that a prepared publication holds back until its commit.
use lab_runtime.Base.{
  ℕ, ◌+◌, ◌≤◌, ◌≡◌, inl, inr, refl, Bool, true, false, ◌&&◌, u64_eq, PartialEq, u64_max, Option,
  none, some, List, [], ◌∷◌, length, ok, arith, Bool-cases, checked_add,
}
use lab_runtime.Events.Targets.{sort_targets}
use lab_runtime.Events.Log.{
  Subject, Body, EventRecord, EventLog, event_record, publish, observe, track_new_signals,
  add_missing, operation_terminal, host_state, recorder_state, resource_state, configuration_state,
}
use lab_runtime.Events.Publication.{
  PreparedEvent, PreparedEventPublication, check_publication, prepare_simple_device_publication,
  and_commit, commit_numbered, commit_event, commit_events, with_sorted,
  commit_simple_device_publication,
}
use lab_runtime.Events.Calls.{LogCall, call, calls}
use lab_runtime.Events.Pending.{
  Pending, same_pending, append-Pending, track-Pending, prepare_simple_device_publication-Pending,
  check_publication_free, reserve-Pending, release-Pending, observe_targets-Pending,
}

checked_add_one : (n : ℕ) → n + 1 ≤ u64_max → checked_add n 1 ≡ some (n + 1)
unfolding checked_add
checked_add_one n room = ground (arith, room)

module _ {Json : Type 0} ⦃same : PartialEq Json⦄ where
  -- Neither a commit nor a cancellation.
  unfoldable pub is_waiting : LogCall Json → Bool
  is_waiting (LogCall.cancels p) = false
  is_waiting (LogCall.commits p at) = false
  is_waiting _ = true

  unfoldable pub all_waiting : List (LogCall Json) → Bool
  all_waiting [] = true
  all_waiting (c ∷ cs) = is_waiting c && all_waiting cs

  call-Pending :
      (size : EventRecord Json → Option ℕ) (c : LogCall Json) (p : PreparedEventPublication Json)
      (l : EventLog Json)
      → is_waiting c ≡ true
      → Pending p l
      → Pending p (call size c l)
  unfolding call operation_terminal host_state recorder_state resource_state configuration_state
      observe track_new_signals is_waiting
  call-Pending size (LogCall.terminates at scope seq d) p l w q =
      append-Pending size at (Subject.of_operation scope) (Body.plain d) (some (scope, seq)) p l q
  call-Pending size (LogCall.hosts at state d) p l w q =
      append-Pending size at Subject.of_host (Body.host_body state d) none p l q
  call-Pending size (LogCall.records_recorder at id d) p l w q =
      append-Pending size at (Subject.of_recorder id) (Body.plain d) none p l q
  call-Pending size (LogCall.records_resource at id d) p l w q =
      append-Pending size at (Subject.of_resource id) (Body.plain d) none p l q
  call-Pending size (LogCall.configures at d) p l w q =
      append-Pending size at Subject.of_configuration (Body.plain d) none p l q
  call-Pending size (LogCall.observes found query at cause) p l w q =
      observe_targets-Pending size at cause query (sort_targets (add_missing found l.targets)) p _ (
        same_pending p l (record l { targets = sort_targets (add_missing found l.targets) }) refl
          refl q)
  call-Pending size (LogCall.starts_tracking t) p l w q = track-Pending t p l q
  call-Pending size (LogCall.prepares gathered) p l w q =
      prepare_simple_device_publication-Pending size gathered p l q
  call-Pending size (LogCall.cancels r) p l w q = absurd (ground (arith, w))
  call-Pending size (LogCall.commits r at) p l w q = absurd (ground (arith, w))

  calls-Pending :
      (size : EventRecord Json → Option ℕ) (cs : List (LogCall Json))
      (p : PreparedEventPublication Json) (l : EventLog Json)
      → all_waiting cs ≡ true
      → Pending p l
      → Pending p (calls size cs l)
  unfolding calls all_waiting
  calls-Pending size [] p l w q = q
  calls-Pending size (c ∷ cs) p l w q = elim (Bool-cases (is_waiting c)) [
    | inl e ↦
        calls-Pending size cs p (call size c l) (let w' = rw e at w in w')
          (call-Pending size c p l e q)
    | inr e ↦ absurd (let w' = rw e at w in ground (arith, w'))
  ]

  commit_event_done :
      (at : ℕ) (e : PreparedEvent Json) (l : EventLog Json)
      → l.sequence + 1 ≤ u64_max
      → (m : EventLog Json) × (commit_event at e l ≡ some m) × (m.sequence ≡ l.sequence + 1)
  unfolding commit_event commit_numbered publish event_record
  commit_event_done at e l room = rw (checked_add_one l.sequence room) (_, refl, refl)

  commit_events_done :
      (at : ℕ) (es : List (PreparedEvent Json)) (l : EventLog Json)
      → l.sequence + length es ≤ u64_max
      → (m : EventLog Json) × (commit_events at es l ≡ some m)
        × (m.sequence ≡ l.sequence + length es)
  unfolding commit_events and_commit
  commit_events_done at [] l room = (l, refl, omega arith)
  commit_events_done at (e ∷ es) l room =
      let (now, told, next) = commit_event_done at e l (omega (arith, room)) in
      let (m, done, last) = commit_events_done at es now (omega (arith, next, room)) in
      (m, rw told done, omega (arith, next, last))

  commit_simple_device_publication_done :
      (p : PreparedEventPublication Json) (at : ℕ) (l : EventLog Json)
      → Pending p l
      → (m : EventLog Json) × (commit_simple_device_publication p at l ≡ some m)
        × (m.sequence ≡ l.sequence + length p.events)
  unfolding commit_simple_device_publication and_commit with_sorted
  commit_simple_device_publication_done p at l q =
      let freed : EventLog Json = record l { publication_reservation = none } in
      let (m, done, last) = commit_events_done at p.events freed q.free in
      (with_sorted m, rw (release-Pending p l q, done) refl, last)

  -- Once a publication is prepared, its commit succeeds: after any calls on the log that neither
  -- commit nor cancel - appends, observations, tracking and further preparations, whatever they answer -
  -- the commit does not panic and takes exactly as many sequences as the publication has events.
  pub commit_succeeds :
      (size : EventRecord Json → Option ℕ) (gathered : Option (List (PreparedEvent Json)))
      (p : PreparedEventPublication Json) (l m : EventLog Json) (cs : List (LogCall Json)) (at : ℕ)
      → prepare_simple_device_publication size gathered l ≡ (ok p, m)
      → all_waiting cs ≡ true
      → (done : EventLog Json) × (commit_simple_device_publication p at (calls size cs m)
          ≡ some done)
        × (done.sequence ≡ (calls size cs m).sequence + length p.events)
  unfolding prepare_simple_device_publication
  commit_succeeds size gathered p l m cs at h w =
      commit_simple_device_publication_done p at (calls size cs m) (
        calls-Pending size cs p m w (
          reserve-Pending (check_publication size gathered l) p l m
            (check_publication_free size gathered l) h))
