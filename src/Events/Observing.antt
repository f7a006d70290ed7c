-- ===== src/Events/Observing.antt =====
-- apps/lab-runtime/src/events.rs: what an observation adds to the history.
use lab_runtime.Base.{
  ◌==◌, if◌then◌else◌, ℕ, inl, inr, refl, u64_eq, PartialEq, Option, none, some, List, [], ◌∷◌,
  ◌++◌, Result, ok, err, Bool-cases, Act, run_on,
}
use lab_runtime.Sessions.Types.{Text}
use lab_runtime.Events.Targets.{Target, key}
use lab_runtime.Events.Log.{
  EventError, Subject, Body, EventRecord, EventLog, append, note, is_known, find_fact,
  observe_target, observe_targets,
}
use lab_runtime.Events.History.{same_ring, Shows, still, both, append_news, append-Shows}

module _ {Json : Type 0} where
  -- The news of what follows a success.
  unfoldable pub after_ok :
      Result EventError (Unit {0}) × EventLog Json
      → (EventLog Json → List (EventRecord Json))
      → List (EventRecord Json)
  after_ok (ok u, l) news = news l
  after_ok (err e, l) news = []

  after_ok-Shows :
      (h xs : List (EventRecord Json)) (r : Result EventError (Unit {0}) × EventLog Json)
      (f : Unit {0} → Act (EventLog Json) EventError (Unit {0}))
      (news : EventLog Json → List (EventRecord Json))
      → Shows (h ++ xs) r.1
      → ((k : List (EventRecord Json)) (m : EventLog Json)
          → Shows k m
          → Shows (k ++ news m) (f tt m).1)
      → Shows (h ++ (xs ++ after_ok r news)) (run_on r f).1
  unfolding after_ok
  after_ok-Shows h xs (ok u, m) f news g more = both h xs (news m) _ (more (h ++ xs) m g)
  after_ok-Shows h xs (err e, m) f news g more = both h xs [] m (still (h ++ xs) m g)

module _ {Json : Type 0} ⦃same : PartialEq Json⦄ where
  -- The news of one target of an observation, and of the targets in order up to a failure.
  unfoldable pub target_news :
      (EventRecord Json → Option ℕ)
      → ℕ
      → Option (Text × ℕ)
      → Target
      → Option Json
      → EventLog Json
      → List (EventRecord Json)
  target_news size at cause t none l = []
  target_news size at cause t (some d) l =
      let fact = append_news size at (Subject.of_target t) (Body.plain d) cause l in
      elim (find_fact (key t) l.facts) [ none ↦ fact | some c ↦ if c == d then [] else fact ]

  unfoldable pub observe_news :
      (EventRecord Json → Option ℕ)
      → ℕ
      → Option (Text × ℕ)
      → (Target → Option Json)
      → List Target
      → EventLog Json
      → List (EventRecord Json)
  observe_news size at cause query [] l = []
  observe_news size at cause query (t ∷ ts) l =
      target_news size at cause t (query t) l
      ++ after_ok (observe_target size at cause t (query t) l) (observe_news size at cause query ts)

  note-Shows :
      (h : List (EventRecord Json)) (k : Text) (d : Json)
      (r : Result EventError (Unit {0}) × EventLog Json)
      → Shows h r.1
      → Shows h (note k d r).1
  unfolding note
  note-Shows h k d (ok u, l) s = same_ring h l (note k d (ok u, l)).1 refl refl s
  note-Shows h k d (err e, l) s = s

  observe_target-Shows :
      (size : EventRecord Json → Option ℕ) (at : ℕ) (cause : Option (Text × ℕ)) (t : Target)
      (o : Option Json) (h : List (EventRecord Json)) (l : EventLog Json)
      → Shows h l
      → Shows (h ++ target_news size at cause t o l) (observe_target size at cause t o l).1
  unfolding observe_target target_news is_known
  observe_target-Shows size at cause t none h l s = still h l s
  observe_target-Shows size at cause t (some d) h l s = by_fact (find_fact (key t) l.facts)
    where
      new_fact :
          Shows
            (h ++ append_news size at (Subject.of_target t) (Body.plain d) cause l)
            (note (key t) d (append size at (Subject.of_target t) (Body.plain d) cause l)).1
      new_fact =
          note-Shows _ (key t) d (append size at (Subject.of_target t) (Body.plain d) cause l)
            (append-Shows size at (Subject.of_target t) (Body.plain d) cause h l s)

      by_fact :
          (o : Option Json)
          → Shows
              (h ++ elim o [
                | none ↦ append_news size at (Subject.of_target t) (Body.plain d) cause l
                | some c ↦
                    if c == d
                    then []
                    else append_news size at (Subject.of_target t) (Body.plain d) cause l
              ])
              (if is_known o d
                then (ok tt, l)
                else note (key t) d (append size at (Subject.of_target t) (Body.plain d) cause l)).1
      by_fact none = new_fact
      by_fact (some c) = elim (Bool-cases (c == d)) [
        | inl e ↦ rw e (still h l s)
        | inr e ↦ rw e new_fact
      ]

  pub observe_targets-Shows :
      (size : EventRecord Json → Option ℕ) (at : ℕ) (cause : Option (Text × ℕ))
      (query : Target → Option Json) (ts : List Target) (h : List (EventRecord Json))
      (l : EventLog Json)
      → Shows h l
      → Shows
          (h ++ observe_news size at cause query ts l)
          (observe_targets size at cause query ts l).1
  unfolding observe_targets observe_news
  observe_targets-Shows size at cause query [] h l s = still h l s
  observe_targets-Shows size at cause query (t ∷ ts) h l s =
      after_ok-Shows h (target_news size at cause t (query t) l)
        (observe_target size at cause t (query t) l) _ (observe_news size at cause query ts)
        (observe_target-Shows size at cause t (query t) h l s)
        (λ k m shown. observe_targets-Shows size at cause query ts k m shown)
