-- ===== src/Events/Calls.antt =====
-- apps/lab-runtime/src/events.rs: any calls of the log after its boot identity is set.
use lab_runtime.Base.{ℕ, u64_eq, PartialEq, Option, none, some, List, [], ◌∷◌, ◌++◌}
use lab_runtime.Sessions.Types.{Text}
use lab_runtime.Events.Targets.{Target, sort_targets}
use lab_runtime.Events.Log.{
  Subject, Body, EventRecord, EventLog, observe, track, add_missing, operation_terminal, host_state,
  recorder_state, resource_state, configuration_state,
}
use lab_runtime.Events.Publication.{
  PreparedEvent, PreparedEventPublication, prepare_simple_device_publication,
  cancel_simple_device_publication, commit_simple_device_publication,
}
use lab_runtime.Events.History.{append_news}
use lab_runtime.Events.Observing.{observe_news}
use lab_runtime.Events.Committing.{or_stays, commit_news}

pub data LogCall (Json : Type 0) : Type 0 where
  terminates : ℕ → Text → ℕ → Json → LogCall Json
  hosts : ℕ → Text → Json → LogCall Json
  records_recorder : ℕ → Option Text → Json → LogCall Json
  records_resource : ℕ → ℕ → Json → LogCall Json
  configures : ℕ → Json → LogCall Json
  observes : List Target → (Target → Option Json) → ℕ → Option (Text × ℕ) → LogCall Json
  starts_tracking : Target → LogCall Json
  prepares : Option (List (PreparedEvent Json)) → LogCall Json
  cancels : PreparedEventPublication Json → LogCall Json
  commits : PreparedEventPublication Json → ℕ → LogCall Json

module _ {Json : Type 0} ⦃same : PartialEq Json⦄ where
  -- The news of a commit that does not panic.
  unfoldable pub if_some :
      Option (EventLog Json) → List (EventRecord Json) → List (EventRecord Json)
  if_some none xs = []
  if_some (some m) xs = xs

  unfoldable pub call : (EventRecord Json → Option ℕ) → LogCall Json → EventLog Json → EventLog Json
  call size (LogCall.terminates at scope seq d) l = (operation_terminal size at scope seq d l).1
  call size (LogCall.hosts at state d) l = (host_state size at state d l).1
  call size (LogCall.records_recorder at id d) l = (recorder_state size at id d l).1
  call size (LogCall.records_resource at id d) l = (resource_state size at id d l).1
  call size (LogCall.configures at d) l = (configuration_state size at d l).1
  call size (LogCall.observes found query at cause) l = (observe size found query at cause l).1
  call size (LogCall.starts_tracking t) l = track t l
  call size (LogCall.prepares gathered) l = (prepare_simple_device_publication size gathered l).1
  call size (LogCall.cancels p) l = or_stays l (cancel_simple_device_publication p l)
  call size (LogCall.commits p at) l = or_stays l (commit_simple_device_publication p at l)

  unfoldable pub calls :
      (EventRecord Json → Option ℕ) → List (LogCall Json) → EventLog Json → EventLog Json
  calls size [] l = l
  calls size (c ∷ cs) l = calls size cs (call size c l)

  -- What a call publishes, of which the record goes into the history.
  unfoldable pub news_of :
      (EventRecord Json → Option ℕ) → LogCall Json → EventLog Json → List (EventRecord Json)
  news_of size (LogCall.terminates at scope seq d) l =
      append_news size at (Subject.of_operation scope) (Body.plain d) (some (scope, seq)) l
  news_of size (LogCall.hosts at state d) l =
      append_news size at Subject.of_host (Body.host_body state d) none l
  news_of size (LogCall.records_recorder at id d) l =
      append_news size at (Subject.of_recorder id) (Body.plain d) none l
  news_of size (LogCall.records_resource at id d) l =
      append_news size at (Subject.of_resource id) (Body.plain d) none l
  news_of size (LogCall.configures at d) l =
      append_news size at Subject.of_configuration (Body.plain d) none l
  news_of size (LogCall.observes found query at cause) l =
      observe_news size at cause query (sort_targets (add_missing found l.targets))
        (record l { targets = sort_targets (add_missing found l.targets) })
  news_of size (LogCall.starts_tracking t) l = []
  news_of size (LogCall.prepares gathered) l = []
  news_of size (LogCall.cancels p) l = []
  news_of size (LogCall.commits p at) l =
      if_some (commit_simple_device_publication p at l)
        (commit_news l.boot_id l.sequence at p.events)

  -- The news of calls, in order.
  unfoldable pub published :
      (EventRecord Json → Option ℕ) → List (LogCall Json) → EventLog Json → List (EventRecord Json)
  published size [] l = []
  published size (c ∷ cs) l = news_of size c l ++ published size cs (call size c l)
