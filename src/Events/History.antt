-- ===== src/Events/History.antt =====
-- apps/lab-runtime/src/events.rs: the whole history of a log, of which the ring is the end.
use lab_runtime.Base.{
  none, some, leb, true, Bool-cases, guard, guard_passed, after_pass, Bool, false, if◌then◌else◌,
  u64_max, ◌&&◌, ℕ, zero, suc, ◌+◌, ◌≡◌, inl, inr, refl, sym, ap, subst, ◌∙◌, u64_eq, Option, List,
  [], ◌∷◌, ◌++◌, drop, recent, length, length-append, push_bounded, push_bounded-recent, ok, arith,
  Result-cases, checked_add,
}
use lab_runtime.Sessions.Types.{Text}
use lab_runtime.Events.Log.{
  Subject, Body, EventRecord, EventLog, event_ring_limit, publish, event_record, next_sequence,
  EventError, prepared, publish_if, append, fits, held_capacity,
}

unfoldable pub is_small : Option ℕ → Bool
is_small none = false
is_small (some n) = leb n 4096

is_small-fits : (n : Option ℕ) → fits n ≡ is_small n
unfolding fits is_small
is_small-fits none = refl
is_small-fits (some n) = refl

module _ {Json : Type 0} where
  -- The records have the sequences after `k`, one after the other.
  unfoldable pub Numbered : ℕ → List (EventRecord Json) → Type 0
  Numbered k [] = Unit {0}
  Numbered k (r ∷ rs) = (r.seq ≡ suc k) × Numbered (suc k) rs

  append-Numbered :
      (k : ℕ) (xs : List (EventRecord Json)) (r : EventRecord Json)
      → Numbered k xs
      → r.seq ≡ suc (k + length xs)
      → Numbered k (xs ++ r ∷ [])
  unfolding Numbered
  append-Numbered k [] r n h = (omega (arith, h), tt)
  append-Numbered k (x ∷ xs) r (a, n) h = (a, append-Numbered (suc k) xs r n (omega (arith, h)))

  pub drop-Numbered :
      (k n : ℕ) (xs : List (EventRecord Json)) → Numbered k xs → Numbered (k + n) (drop n xs)
  unfolding Numbered drop
  drop-Numbered k zero xs h = subst (λ (m : ℕ). Numbered m xs) (omega arith) h
  drop-Numbered k (suc n) [] h = tt
  drop-Numbered k (suc n) (x ∷ xs) (a, h) =
      subst (λ (m : ℕ). Numbered m (drop n xs)) (omega arith) (drop-Numbered (suc k) n xs h)

  -- The log shows the end of `h`.
  pub record Shows (h : List (EventRecord Json)) (l : EventLog Json) : Type 0 where
    pub counted : l.sequence ≡ length h
    pub ring_end : l.ring ≡ recent event_ring_limit h
    pub numbered : Numbered 0 h

  pub publish-Shows :
      (h : List (EventRecord Json)) (l : EventLog Json) (r : EventRecord Json)
      → Shows h l
      → r.seq ≡ suc l.sequence
      → Shows (h ++ r ∷ []) (publish r l)
  unfolding publish
  publish-Shows h l r s next = record {
    counted = omega (arith, next, s.counted, length-append h (r ∷ []));
    ring_end =
        ap (push_bounded event_ring_limit r) s.ring_end
        ∙ push_bounded-recent event_ring_limit r h (omega arith);
    numbered = append-Numbered 0 h r s.numbered (omega (arith, next, s.counted));
  }

  append_nil : (h : List (EventRecord Json)) → h ++ [] ≡ h
  append_nil [] = refl
  append_nil (x ∷ h) = ap (λ (y : List (EventRecord Json)). x ∷ y) (append_nil h)

  append_assoc : (a b c : List (EventRecord Json)) → (a ++ b) ++ c ≡ a ++ (b ++ c)
  append_assoc [] b c = refl
  append_assoc (x ∷ a) b c = ap (λ (y : List (EventRecord Json)). x ∷ y) (append_assoc a b c)

  pub still : (h : List (EventRecord Json)) (l : EventLog Json) → Shows h l → Shows (h ++ []) l
  still h l s = subst (λ (x : List (EventRecord Json)). Shows x l) (sym (append_nil h)) s

  -- The log shows two pieces of news, one after the other.
  pub both :
      (h xs ys : List (EventRecord Json)) (l : EventLog Json)
      → Shows ((h ++ xs) ++ ys) l
      → Shows (h ++ (xs ++ ys)) l
  both h xs ys l s = subst (λ (x : List (EventRecord Json)). Shows x l) (append_assoc h xs ys) s

  -- The record of an append, with the next sequence.
  abbrev pub next_record :
      ℕ → Subject → Body Json → Option (Text × ℕ) → EventLog Json → EventRecord Json
  next_record at s d cause l = record {
    boot_id = l.boot_id;
    seq = suc l.sequence;
    published_at = at;
    subject = s;
    data_of = d;
    request_id = cause;
  }

  -- The record can be encoded in 4096 bytes, and the sequences that a prepared publication holds back
  -- are left over.
  unfoldable pub can_append :
      (EventRecord Json → Option ℕ) → EventRecord Json → EventLog Json → Bool
  can_append size r l = leb (suc l.sequence + held_capacity l) u64_max && is_small (size r)

  -- What an append publishes.
  unfoldable pub append_news :
      (EventRecord Json → Option ℕ)
      → ℕ
      → Subject
      → Body Json
      → Option (Text × ℕ)
      → EventLog Json
      → List (EventRecord Json)
  append_news size at s d cause l =
      if can_append size (next_record at s d cause l) l then next_record at s d cause l ∷ [] else []

  next_sequence_if :
      (l : EventLog Json)
      → leb (suc l.sequence + held_capacity l) u64_max ≡ true
      → next_sequence l ≡ ok (suc l.sequence)
  unfolding next_sequence checked_add
  next_sequence_if l h =
      let one : l.sequence + 1 ≡ suc l.sequence = omega arith in
      let some_left : leb (suc l.sequence) u64_max ≡ true = ground (arith, h) in
      rw (one, some_left, h) refl

  next_sequence_only :
      (l : EventLog Json) (n : ℕ)
      → next_sequence l ≡ ok n
      → (leb (suc l.sequence + held_capacity l) u64_max ≡ true) × (n ≡ suc l.sequence)
  unfolding next_sequence checked_add
  next_sequence_only l n h = (ground (arith, h), ground (arith, h))

  prepared_if :
      (size : EventRecord Json → Option ℕ) (at : ℕ) (s : Subject) (d : Body Json)
      (cause : Option (Text × ℕ)) (l : EventLog Json)
      → can_append size (next_record at s d cause l) l ≡ true
      → prepared size at s d cause l ≡ ok (next_record at s d cause l)
  unfolding prepared event_record can_append
  prepared_if size at s d cause l h =
      let small : fits (size (next_record at s d cause l)) ≡ true =
        is_small-fits (size (next_record at s d cause l)) ∙ ground (arith, h) in
      rw (next_sequence_if l (ground (arith, h)), small) refl

  prepared_only :
      (size : EventRecord Json → Option ℕ) (at : ℕ) (s : Subject) (d : Body Json)
      (cause : Option (Text × ℕ)) (l : EventLog Json) (r : EventRecord Json)
      → prepared size at s d cause l ≡ ok r
      → can_append size (next_record at s d cause l) l ≡ true
  unfolding prepared event_record can_append
  prepared_only size at s d cause l r h = after_pass (next_sequence l) _ r h λ n told h.
      let (room, same) = next_sequence_only l n told in
      after_pass (guard (fits (size (event_record l.boot_id n at s d cause))) EventError.oversized)
        _ r h
        λ u small h.
          let record_of : ℕ → EventRecord Json = λ k. event_record l.boot_id k at s d cause in
          let fitting = guard_passed (fits (size (record_of n))) EventError.oversized u small in
          let tiny : is_small (size (record_of (suc l.sequence))) ≡ true =
            sym (is_small-fits (size (record_of (suc l.sequence))))
            ∙ ap (λ (k : ℕ). fits (size (record_of k))) (sym same)
            ∙ fitting in
          rw (room, tiny) refl

  pub append-Shows :
      (size : EventRecord Json → Option ℕ) (at : ℕ) (s : Subject) (d : Body Json)
      (cause : Option (Text × ℕ)) (h : List (EventRecord Json)) (l : EventLog Json)
      → Shows h l
      → Shows (h ++ append_news size at s d cause l) (append size at s d cause l).1
  unfolding append publish_if append_news
  append-Shows size at s d cause h l shown =
      let r = next_record at s d cause l in
      elim (Bool-cases (can_append size r l)) [
        | inl e ↦ rw (e, prepared_if size at s d cause l e) (publish-Shows h l r shown refl)
        | inr e ↦ elim (Result-cases (prepared size at s d cause l)) [
          | inl (q, f) ↦ absurd (ground (arith, e, prepared_only size at s d cause l q f))
          | inr (b, f) ↦ rw (e, f) (still h l shown)
        ]
      ]

  -- A log with the same sequence and ring.
  pub same_ring :
      (h : List (EventRecord Json)) (l m : EventLog Json)
      → m.sequence ≡ l.sequence
      → m.ring ≡ l.ring
      → Shows h l
      → Shows h m
  same_ring h l m a b s = record {
    counted = a ∙ s.counted;
    ring_end = b ∙ s.ring_end;
    numbered = s.numbered;
  }
