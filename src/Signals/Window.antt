-- ===== src/Signals/Window.antt =====
-- crates/lab-core/src/signal.rs: a buffer shows the end of the whole history of its signal, which the
-- specification here keeps without a bound.
use lab_runtime.Base.{
  ℕ, ◌≤◌, ◌<◌, ◌≡◌, inl, inr, refl, ap, ◌&&◌, not, ltb, leb, ◌==◌, u64_eq, if◌then◌else◌, Option,
  none, some, List, [], ◌∷◌, ◌++◌, length, back, pop_back, recent, drop, back-recent,
  push_bounded-recent, replace_back-recent, recent-nil, Result, ok, err, arith, Bool-cases,
  Option-cases,
}
use lab_runtime.Model.{Error}
use lab_runtime.Signals.Sample.{SignalId, signal_is, MeasurementFailure, Sample, unavailable_sample}
use lab_runtime.Signals.Buffer.{
  SignalBuffer, max_history_capacity, new, latest, check_after, check_time, append_sample,
  push_checked, push, replace_tail, invalidate_after, invalidate,
}

abbrev pub Answer : Type 0
Answer = Result Error (Unit {0})

-- The history of signal `id`, oldest sample first, after a sample or a failure.
unfoldable pub observe : SignalId → Sample → List Sample → Answer × List Sample
observe id x xs =
    if not (signal_is x.signal id)
    then (err (Error.unknown_signal x.signal.instrument x.signal.parameter), xs)
    else elim (check_after id x.at (back xs)) [ ok u ↦ (ok tt, xs ++ x ∷ []) | err e ↦ (err e, xs) ]

unfoldable pub fail_after :
    SignalId → Option Sample → ℕ → MeasurementFailure → List Sample → Answer × List Sample
fail_after id none at reason xs =
    (err (Error.invalid_configuration "cannot invalidate a signal without an installed unit"), xs)
fail_after id (some last) at reason xs =
    if ltb at last.at
    then (err (Error.non_monotonic_time id.instrument id.parameter last.at at), xs)
    else let sample = unavailable_sample id last.unit at reason in
      if last.at == at then (ok tt, pop_back xs ++ sample ∷ []) else observe id sample xs

unfoldable pub fail_at : SignalId → ℕ → MeasurementFailure → List Sample → Answer × List Sample
fail_at id at reason xs = fail_after id (back xs) at reason xs

pub data SignalCall : Type 0 where
  pushed : Sample → SignalCall
  invalidated : ℕ → MeasurementFailure → SignalCall

unfoldable pub call : SignalCall → SignalBuffer → Answer × SignalBuffer
call (SignalCall.pushed x) b = push x b
call (SignalCall.invalidated at reason) b = invalidate at reason b

unfoldable pub spec_call : SignalId → SignalCall → List Sample → Answer × List Sample
spec_call id (SignalCall.pushed x) xs = observe id x xs
spec_call id (SignalCall.invalidated at reason) xs = fail_at id at reason xs

-- The answers of the calls in order, and what they leave.
unfoldable pub calls : List SignalCall → SignalBuffer → List Answer × SignalBuffer
unfolding call
calls [] b = ([], b)
calls (c ∷ cs) b = let now = call c b in let rest = calls cs now.1 in (now.0 ∷ rest.0, rest.1)

unfoldable pub spec_calls : SignalId → List SignalCall → List Sample → List Answer × List Sample
unfolding spec_call
spec_calls id [] xs = ([], xs)
spec_calls id (c ∷ cs) xs =
    let now = spec_call id c xs in let rest = spec_calls id cs now.1 in (now.0 ∷ rest.0, rest.1)

-- The buffer of `id` and `capacity` that shows the end of history `xs`.
abbrev pub shown : SignalId → ℕ → List Sample → SignalBuffer
shown id capacity xs = record { id = id; capacity = capacity; samples = recent capacity xs }

abbrev pub Shows : SignalId → ℕ → Answer × SignalBuffer → Answer × List Sample → Type 0
Shows id capacity b xs = (b.0 ≡ xs.0) × (b.1 ≡ shown id capacity xs.1)

module _ (id : SignalId) (capacity : ℕ) (positive : 0 < capacity) where
  push-observe :
      (x : Sample) (xs : List Sample)
      → Shows id capacity (push x (shown id capacity xs)) (observe id x xs)
  unfolding push check_time latest push_checked append_sample observe
  push-observe x xs = elim (Bool-cases (not (signal_is x.signal id))) [
    | inl e ↦ rw e (refl, refl)
    | inr e ↦ rw (e, back-recent capacity xs positive) (answer (check_after id x.at (back xs)))
  ]
    where
      answer :
          (r : Answer)
          → Shows id capacity
              (push_checked r x (shown id capacity xs))
              (elim r [ ok u ↦ (ok tt, xs ++ x ∷ []) | err e ↦ (err e, xs) ])
      answer (ok u) = (
        refl,
        ap (λ (ys : List Sample). record { id = id; capacity = capacity; samples = ys })
            (push_bounded-recent capacity x xs positive),
      )
      answer (err e) = (refl, refl)

  back_present : (xs : List Sample) (last : Sample) → back xs ≡ some last → 0 < length xs
  unfolding back
  back_present [] last h = absurd (ground arith)
  back_present (x ∷ xs) last h = omega arith

  fail-invalidate :
      (at : ℕ) (reason : MeasurementFailure) (xs : List Sample)
      → Shows id capacity (invalidate at reason (shown id capacity xs)) (fail_at id at reason xs)
  unfolding invalidate invalidate_after latest fail_at fail_after replace_tail
  fail-invalidate at reason xs = elim (Option-cases (back xs)) [
    | inl e ↦ rw (back-recent capacity xs positive, e) (refl, refl)
    | inr (last, e) ↦
        rw (back-recent capacity xs positive, e)
          (elim (Bool-cases (ltb at last.at)) [
            | inl late ↦ rw late (refl, refl)
            | inr fine ↦ rw fine (elim (Bool-cases (last.at == at)) [
              | inl same ↦ rw same (
                refl,
                ap (λ (ys : List Sample). record { id = id; capacity = capacity; samples = ys })
                    (replace_back-recent capacity (unavailable_sample id last.unit at reason) xs
                      positive (back_present xs last e)),
              )
              | inr other ↦ rw other (push-observe (unavailable_sample id last.unit at reason) xs)
            ])
          ])
  ]

  call-Shows :
      (c : SignalCall) (xs : List Sample)
      → Shows id capacity (call c (shown id capacity xs)) (spec_call id c xs)
  unfolding call spec_call
  call-Shows (SignalCall.pushed x) xs = push-observe x xs
  call-Shows (SignalCall.invalidated at reason) xs = fail-invalidate at reason xs

  calls-shown :
      (cs : List SignalCall) (xs : List Sample)
      → ((calls cs (shown id capacity xs)).0 ≡ (spec_calls id cs xs).0)
        × ((calls cs (shown id capacity xs)).1 ≡ shown id capacity (spec_calls id cs xs).1)
  unfolding calls spec_calls
  calls-shown [] xs = (refl, refl)
  calls-shown (c ∷ cs) xs =
      let (same, left) = call-Shows c xs in
      let (answers, rest) = calls-shown cs (spec_call id c xs).1 in
      rw (same, left) (ap (λ (rs : List Answer). (spec_call id c xs).0 ∷ rs) answers, rest)

fresh_buffer :
    (id : SignalId) (capacity : ℕ) (b : SignalBuffer)
    → new id capacity ≡ ok b
    → (0 < capacity) × (capacity ≤ max_history_capacity) × (b ≡ shown id capacity [])
unfolding new recent drop
fresh_buffer id capacity b h =
    elim (Bool-cases (leb 1 capacity && leb capacity max_history_capacity)) [
      | inl e ↦ let h' = rw e at h in ground (arith, e, h', recent-nil {A = Sample} capacity)
      | inr e ↦ absurd (let h' = rw e at h in ground (arith, h'))
    ]

-- A new buffer answers every sequence of calls as the unbounded history does, and then holds the last
-- `capacity` samples of that history.
pub buffer_shows_recent :
    (id : SignalId) (capacity : ℕ) (b : SignalBuffer) (cs : List SignalCall)
    → new id capacity ≡ ok b
    → ((calls cs b).0 ≡ (spec_calls id cs []).0)
      × ((calls cs b).1.samples ≡ recent capacity (spec_calls id cs []).1)
buffer_shows_recent id capacity b cs made =
    let (positive, fits, start) = fresh_buffer id capacity b made in
    let (answers, rest) = calls-shown id capacity positive cs [] in
    rw start (answers, ap (λ (x : SignalBuffer). x.samples) rest)
