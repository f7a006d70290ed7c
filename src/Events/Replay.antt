-- ===== src/Events/Replay.antt =====
-- apps/lab-runtime/src/events.rs: a replay reads the whole history from its cursor, or tells that it
-- cannot.
use lab_runtime.Base.{
  ℕ, suc, ◌+◌, ◌-◌, ◌≤◌, ◌≡◌, inl, inr, refl, sym, ap, subst, ◌∙◌, true, false, ltb, min, u64_eq,
  if◌then◌else◌, List, [], ◌∷◌, select, take, drop, recent, length, length-drop, drop-drop,
  drop-nil, drop_eq, Result, ok, err, arith, Bool-cases,
}
use lab_runtime.Events.Log.{
  EventError, EventRecord, EventLog, event_ring_limit, oldest_cursor, scan_after,
}
use lab_runtime.Events.History.{Numbered, drop-Numbered, Shows}

module _ {Json : Type 0} where
  -- A replay of the unbounded history: its end of 1024 records can be read.
  unfoldable pub replay :
      ℕ → ℕ → List (EventRecord Json) → Result EventError (List (EventRecord Json))
  replay cursor limit h =
      if ltb (length h) cursor
      then err EventError.future
      else if ltb (cursor + event_ring_limit) (length h)
      then err EventError.gap
      else ok (take (min limit 32) (drop cursor h))

  select_all :
      (c k : ℕ) (xs : List (EventRecord Json))
      → Numbered k xs
      → c ≤ k
      → select (λ (r : EventRecord Json). ltb c r.seq) xs ≡ xs
  unfolding Numbered
  select_all c k [] n h = refl
  select_all c k (x ∷ xs) (a, n) h =
      let rest = select_all c (suc k) xs n (omega (arith, h)) in
      let later : ltb c x.seq ≡ true = ground (arith, a, h) in rw (later, rest) refl

  select-drop :
      (c k : ℕ) (xs : List (EventRecord Json))
      → Numbered k xs
      → k ≤ c
      → select (λ (r : EventRecord Json). ltb c r.seq) xs ≡ drop (c - k) xs
  unfolding Numbered drop
  select-drop c k [] n h = sym (drop-nil (c - k))
  select-drop c k (x ∷ xs) (a, n) h = elim (Bool-cases (ltb c x.seq)) [
    | inl e ↦
        let same : c ≡ k = ground (arith, e, a, h) in
        rw (e, select_all c (suc k) xs n (omega (arith, same)))
          (drop_eq 0 (c - k) (x ∷ xs) (omega (arith, same)))
    | inr e ↦
        let over : suc k ≤ c = ground (arith, e, a) in
        rw (e, select-drop c (suc k) xs n over)
          (drop_eq (suc (c - suc k)) (c - k) (x ∷ xs) (omega (arith, over)))
  ]

  oldest_front :
      (k : ℕ) (l : EventLog Json) (xs : List (EventRecord Json))
      → l.ring ≡ xs
      → Numbered k xs
      → l.sequence ≡ k + length xs
      → oldest_cursor l ≡ k
  unfolding oldest_cursor Numbered
  oldest_front k l [] same n h = rw same (omega (arith, h))
  oldest_front k l (x ∷ xs) same (a, n) h = rw same (ground (arith, a))

  -- A log that shows a history replays it.
  pub scan_after-replay :
      (h : List (EventRecord Json)) (l : EventLog Json) (cursor limit : ℕ)
      → Shows h l
      → scan_after cursor limit l ≡ replay cursor limit h
  unfolding scan_after replay recent
  scan_after-replay h l cursor limit s = elim (Bool-cases (ltb l.sequence cursor)) [
    | inl e ↦ rw (e, future e) refl
    | inr e ↦
        rw (e, known e, oldest)
          (elim (Bool-cases (ltb cursor first)) [
            | inl f ↦ rw (f, lost f) refl
            | inr f ↦
                rw (f, kept f)
                  (ap (λ (xs : List (EventRecord Json)). ok (take (min limit 32) xs)) (read e f))
          ])
  ]
    where
      first : ℕ
      first = length h - event_ring_limit

      numbered : Numbered (0 + first) (drop first h)
      numbered = drop-Numbered 0 first h s.numbered

      oldest : oldest_cursor l ≡ first
      oldest =
          oldest_front first l (drop first h) s.ring_end
            (subst (λ (m : ℕ). Numbered m (drop first h)) (omega arith) numbered)
            (omega (arith, s.counted, length-drop first h))

      future : ltb l.sequence cursor ≡ true → ltb (length h) cursor ≡ true
      future e = ground (arith, e, s.counted)

      known : ltb l.sequence cursor ≡ false → ltb (length h) cursor ≡ false
      known e = ground (arith, e, s.counted)

      lost : ltb cursor first ≡ true → ltb (cursor + event_ring_limit) (length h) ≡ true
      lost f = ground (arith, f)

      kept : ltb cursor first ≡ false → ltb (cursor + event_ring_limit) (length h) ≡ false
      kept f = ground (arith, f)

      read :
          ltb l.sequence cursor ≡ false
          → ltb cursor first ≡ false
          → select (λ (r : EventRecord Json). ltb cursor r.seq) l.ring ≡ drop cursor h
      read e f =
          ap (select (λ (r : EventRecord Json). ltb cursor r.seq)) s.ring_end
          ∙ select-drop cursor first (drop first h)
              (subst (λ (m : ℕ). Numbered m (drop first h)) (omega arith) numbered)
              (ground (arith, f))
          ∙ drop-drop (cursor - first) first h
          ∙ drop_eq (first + (cursor - first)) cursor h (ground (arith, f))
