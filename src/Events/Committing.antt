-- ===== src/Events/Committing.antt =====
-- apps/lab-runtime/src/events.rs: what the commit of a publication adds to the history.
use lab_runtime.Base.{
  suc, Option-cases, sym, ℕ, ◌≡◌, inl, inr, refl, ap, subst, ◌∙◌, u64_eq, PartialEq, Option, none,
  some, List, [], ◌∷◌, ◌++◌, Result, ok, err, arith, checked_add,
}
use lab_runtime.Sessions.Types.{Text}
use lab_runtime.Events.Log.{
  EventError, Subject, Body, EventRecord, PublicationReservation, EventLog, event_record, publish,
}
use lab_runtime.Events.Publication.{
  PreparedEvent, PreparedEventPublication, reserve, release, and_commit, commit_numbered,
  commit_event, commit_events, with_sorted, commit_simple_device_publication,
}
use lab_runtime.Events.History.{same_ring, Shows, publish-Shows, still, both, next_record}

checked_add_next : (n k : ℕ) → checked_add n 1 ≡ some k → k ≡ suc n
unfolding checked_add
checked_add_next n k h = ground (arith, h)

module _ {Json : Type 0} where
  -- A panic ends the run where it stands.
  abbrev pub or_stays : EventLog Json → Option (EventLog Json) → EventLog Json
  or_stays l none = l
  or_stays l (some m) = m

  some_same : {a b : EventLog Json} → Path (Option (EventLog Json)) (some a) (some b) → a ≡ b
  some_same {a} e = ap (or_stays a) e

  pub reserve-Shows :
      (h : List (EventRecord Json)) (r : Result EventError (List (PreparedEvent Json)))
      (l : EventLog Json)
      → Shows h l
      → Shows h (reserve r l).1
  unfolding reserve
  reserve-Shows h (ok es) l s = record {
    counted = s.counted;
    ring_end = s.ring_end;
    numbered = s.numbered;
  }
  reserve-Shows h (err e) l s = s

  pub release-Shows :
      (h : List (EventRecord Json)) (r : Option PublicationReservation) (l m : EventLog Json)
      → Shows h l
      → release r l ≡ some m
      → Shows h m
  unfolding release
  release-Shows h none l m s done = ground arith
  release-Shows h (some r) l m s done =
      subst (λ (x : EventLog Json). Shows h x) (some_same done)
        (same_ring h l (record l { publication_reservation = none }) refl refl s)

  -- The news of a commit, from sequence `n` on.
  unfoldable pub commit_news : Text → ℕ → ℕ → List (PreparedEvent Json) → List (EventRecord Json)
  commit_news boot n at [] = []
  commit_news boot n at (e ∷ es) =
      record {
        boot_id = boot;
        seq = suc n;
        published_at = at;
        subject = Subject.of_target e.target;
        data_of = Body.plain e.record_data;
        request_id = none;
      }
      ∷ commit_news boot (suc n) at es

module _ {Json : Type 0} ⦃same : PartialEq Json⦄ where
  -- A chain of commits that succeeds has passed its first one.
  after_commit :
      {P : Type 0} (o : Option (EventLog Json)) (f : EventLog Json → Option (EventLog Json))
      (m : EventLog Json)
      → and_commit o f ≡ some m
      → ((l : EventLog Json) → o ≡ some l → f l ≡ some m → P)
      → P
  unfolding and_commit
  after_commit none f m done k = absurd (ground (arith, done))
  after_commit (some l) f m done k = k l refl done

  commit_numbered-Shows :
      (at : ℕ) (e : PreparedEvent Json) (h : List (EventRecord Json)) (l m : EventLog Json)
      → Shows h l
      → commit_numbered at e l (some (suc l.sequence)) ≡ some m
      → Shows (h ++ commit_news l.boot_id l.sequence at (e ∷ [])) m
        × (m.boot_id ≡ l.boot_id)
        × (m.sequence ≡ suc l.sequence)
  unfolding commit_numbered event_record commit_news publish
  commit_numbered-Shows at e h l m s done =
      let r = next_record at (Subject.of_target e.target) (Body.plain e.record_data) none l in
      let made = some_same done in
      (
        subst (λ (x : EventLog Json). Shows (h ++ r ∷ []) x) made
            (same_ring (h ++ r ∷ []) (publish r l) _ refl refl (publish-Shows h l r s refl)),
        sym (ap (λ (x : EventLog Json). x.boot_id) made),
        sym (ap (λ (x : EventLog Json). x.sequence) made),
      )

  commit_event-Shows :
      (at : ℕ) (e : PreparedEvent Json) (h : List (EventRecord Json)) (l m : EventLog Json)
      → Shows h l
      → commit_event at e l ≡ some m
      → Shows (h ++ commit_news l.boot_id l.sequence at (e ∷ [])) m
        × (m.boot_id ≡ l.boot_id)
        × (m.sequence ≡ suc l.sequence)
  unfolding commit_event commit_numbered
  commit_event-Shows at e h l m s done = elim (Option-cases (checked_add l.sequence 1)) [
    | inl f ↦ absurd (let told = rw f at done in ground (arith, told))
    | inr (n, f) ↦
        let next : checked_add l.sequence 1 ≡ some (suc l.sequence) =
          f ∙ ap some (checked_add_next l.sequence n f) in
        commit_numbered-Shows at e h l m s (rw next at done)
  ]

  commit_events-Shows :
      (at : ℕ) (es : List (PreparedEvent Json)) (h : List (EventRecord Json)) (l m : EventLog Json)
      → Shows h l
      → commit_events at es l ≡ some m
      → Shows (h ++ commit_news l.boot_id l.sequence at es) m
  unfolding commit_events commit_news
  commit_events-Shows at [] h l m s done =
      subst (λ (x : EventLog Json). Shows (h ++ []) x) (some_same done) (still h l s)
  commit_events-Shows at (e ∷ es) h l m s done =
      after_commit (commit_event at e l) _ m done λ now told rest.
        let (shown, boot, next) = commit_event-Shows at e h l now s told in
        let first = commit_news l.boot_id l.sequence at (e ∷ []) in
        both h first (commit_news l.boot_id (suc l.sequence) at es) m (
          subst (λ (b : Text). Shows ((h ++ first) ++ commit_news b (suc l.sequence) at es) m) boot
            (subst (λ (n : ℕ). Shows ((h ++ first) ++ commit_news now.boot_id n at es) m) next
              (commit_events-Shows at es (h ++ first) now m shown rest)))

  release_keeps :
      (r : Option PublicationReservation) (l m : EventLog Json)
      → release r l ≡ some m
      → (m.boot_id ≡ l.boot_id) × (m.sequence ≡ l.sequence)
  unfolding release
  release_keeps none l m done = ground arith
  release_keeps (some r) l m done =
      let made = some_same done in
      (
        sym (ap (λ (x : EventLog Json). x.boot_id) made),
        sym (ap (λ (x : EventLog Json). x.sequence) made),
      )

  pub commit_simple_device_publication-Shows :
      (p : PreparedEventPublication Json) (at : ℕ) (h : List (EventRecord Json))
      (l m : EventLog Json)
      → Shows h l
      → commit_simple_device_publication p at l ≡ some m
      → Shows (h ++ commit_news l.boot_id l.sequence at p.events) m
  unfolding commit_simple_device_publication with_sorted
  commit_simple_device_publication-Shows p at h l m s done =
      after_commit (release l.publication_reservation l) _ m done λ freed told rest.
        after_commit (commit_events at p.events freed) _ m rest λ last told_last finish.
          let (boot, number) = release_keeps l.publication_reservation l freed told in
          let all =
            commit_events-Shows at p.events h freed last
              (release-Shows h l.publication_reservation l freed s told) told_last in
          let named =
            subst (λ (b : Text). Shows (h ++ commit_news b l.sequence at p.events) last) boot
              (subst (λ (n : ℕ). Shows (h ++ commit_news freed.boot_id n at p.events) last) number
                all) in
          subst (λ (x : EventLog Json). Shows (h ++ commit_news l.boot_id l.sequence at p.events) x)
            (some_same finish) (same_ring _ last _ refl refl named)
