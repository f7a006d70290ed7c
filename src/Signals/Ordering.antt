-- ===== src/Signals/Ordering.antt =====
-- crates/lab-core/src/signal.rs: the samples of a buffer are of its signal and in time order.
use lab_runtime.Base.{
  ℕ, zero, suc, ◌-◌, ◌≤◌, ◌<◌, ◌≡◌, inl, inr, sym, subst, true, not, ltb, ◌==◌, u64_eq, Option,
  none, some, List, [], ◌∷◌, ◌++◌, length, back, pop_back, recent, drop, length-recent, ok, arith,
  Bool-cases, Option-cases, Result-cases, OnSome,
}
use lab_runtime.Signals.Sample.{SignalId, signal_is, MeasurementFailure, Sample, unavailable_sample}
use lab_runtime.Signals.Buffer.{SignalBuffer, check_after, new}
use lab_runtime.Signals.Window.{
  SignalCall, observe, fail_after, fail_at, spec_call, spec_calls, calls, buffer_shows_recent,
}

-- The samples are of signal `id`, each later than the one before it.
unfoldable pub Ordered : SignalId → List Sample → Type 0
Ordered id [] = Unit {0}
Ordered id (x ∷ []) = signal_is x.signal id ≡ true
Ordered id (x ∷ y ∷ ys) = (signal_is x.signal id ≡ true) × (x.at < y.at) × Ordered id (y ∷ ys)

module _ (id : SignalId) where
  signal_is_self : signal_is id id ≡ true
  unfolding signal_is
  signal_is_self = ground arith

  append-Ordered :
      (x : Sample) (xs : List Sample)
      → Ordered id xs
      → signal_is x.signal id ≡ true
      → OnSome (λ (y : Sample). y.at < x.at) (back xs)
      → Ordered id (xs ++ x ∷ [])
  unfolding Ordered back
  append-Ordered x [] o own late = own
  append-Ordered x (y ∷ []) o own late = (o, late, own)
  append-Ordered x (y ∷ z ∷ zs) (a, b, o) own late = (a, b, append-Ordered x (z ∷ zs) o own late)

  replace-Ordered :
      (x : Sample) (xs : List Sample)
      → Ordered id xs
      → signal_is x.signal id ≡ true
      → OnSome (λ (y : Sample). y.at ≡ x.at) (back xs)
      → Ordered id (pop_back xs ++ x ∷ [])
  unfolding Ordered back pop_back
  replace-Ordered x [] o own same = own
  replace-Ordered x (y ∷ []) o own same = own
  replace-Ordered x (y ∷ z ∷ []) (a, b, o) own same = (a, omega (arith, b, same), own)
  replace-Ordered x (y ∷ z ∷ w ∷ ws) (a, b, o) own same =
      (a, b, replace-Ordered x (z ∷ w ∷ ws) o own same)

  tail-Ordered : (x : Sample) (xs : List Sample) → Ordered id (x ∷ xs) → Ordered id xs
  unfolding Ordered
  tail-Ordered x [] o = tt
  tail-Ordered x (y ∷ ys) o = o.2

  drop-Ordered : (n : ℕ) (xs : List Sample) → Ordered id xs → Ordered id (drop n xs)
  unfolding drop Ordered
  drop-Ordered zero xs o = o
  drop-Ordered (suc n) [] o = tt
  drop-Ordered (suc n) (x ∷ xs) o = drop-Ordered n xs (tail-Ordered x xs o)

  after_check :
      (at : ℕ) (last : Option Sample) (u : Unit {0})
      → check_after id at last ≡ ok u
      → OnSome (λ (y : Sample). y.at < at) last
  unfolding check_after
  after_check at none u h = tt
  after_check at (some last) u h = ground arith

  observe-Ordered : (x : Sample) (xs : List Sample) → Ordered id xs → Ordered id (observe id x xs).1
  unfolding observe
  observe-Ordered x xs o = elim (Bool-cases (not (signal_is x.signal id))) [
    | inl e ↦ rw e o
    | inr e ↦ elim (Result-cases (check_after id x.at (back xs))) [
      | inl (u, h) ↦
          rw (e, h) (append-Ordered x xs o (ground (arith, e)) (after_check x.at (back xs) u h))
      | inr (b, h) ↦ rw (e, h) o
    ]
  ]

  fail-Ordered :
      (at : ℕ) (reason : MeasurementFailure) (xs : List Sample)
      → Ordered id xs
      → Ordered id (fail_at id at reason xs).1
  unfolding fail_at fail_after unavailable_sample
  fail-Ordered at reason xs o = elim (Option-cases (back xs)) [
    | inl e ↦ rw e o
    | inr (last, e) ↦ elim (Bool-cases (ltb at last.at)) [
      | inl late ↦ rw (e, late) o
      | inr fine ↦ elim (Bool-cases (last.at == at)) [
        | inl same ↦
            rw (e, fine, same)
              (replace-Ordered (unavailable_sample id last.unit at reason) xs o signal_is_self
                (subst (OnSome (λ (y : Sample). y.at ≡ at)) (sym e) (ground (arith, same))))
        | inr other ↦
            rw (e, fine, other) (observe-Ordered (unavailable_sample id last.unit at reason) xs o)
      ]
    ]
  ]

  spec_calls-Ordered :
      (cs : List SignalCall) (xs : List Sample) → Ordered id xs → Ordered id (spec_calls id cs xs).1
  unfolding spec_calls spec_call
  spec_calls-Ordered [] xs o = o
  spec_calls-Ordered (SignalCall.pushed x ∷ cs) xs o =
      spec_calls-Ordered cs (observe id x xs).1 (observe-Ordered x xs o)
  spec_calls-Ordered (SignalCall.invalidated at reason ∷ cs) xs o =
      spec_calls-Ordered cs (fail_at id at reason xs).1 (fail-Ordered at reason xs o)

-- After any calls a buffer holds at most `capacity` samples, all of its signal, each later than the one
-- before it.
pub window-Ordered :
    (id : SignalId) (capacity : ℕ) (b : SignalBuffer) (cs : List SignalCall)
    → new id capacity ≡ ok b
    → Ordered id (calls cs b).1.samples × (length (calls cs b).1.samples ≤ capacity)
unfolding recent Ordered
window-Ordered id capacity b cs made =
    let xs = (spec_calls id cs []).1 in
    let (_, same) = buffer_shows_recent id capacity b cs made in
    rw same (
      drop-Ordered id (length xs - capacity) xs (spec_calls-Ordered id cs [] tt),
      length-recent capacity xs,
    )
