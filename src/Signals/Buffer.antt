-- ===== src/Signals/Buffer.antt =====
-- crates/lab-core/src/signal.rs: SignalBuffer. The list is the deque, oldest sample first.
use lab_runtime.Base.{
  ℕ, ◌&&◌, not, ltb, leb, ◌==◌, u64_eq, if◌then◌else◌, Option, none, some, List, [], ◌∷◌, ◌++◌,
  back, pop_back, push_bounded, Result, ok, err, Act,
}
use lab_runtime.Model.{Error}
use lab_runtime.Signals.Sample.{SignalId, signal_is, MeasurementFailure, Sample, unavailable_sample}

abbrev pub max_history_capacity : ℕ
max_history_capacity = 4096

pub record SignalBuffer : Type 0 where
  pub id : SignalId
  pub capacity : ℕ
  pub samples : List Sample

unfoldable pub new : SignalId → ℕ → Result Error SignalBuffer
new id capacity =
    if leb 1 capacity && leb capacity max_history_capacity
    then ok (record { id = id; capacity = capacity; samples = [] })
    else err (Error.invalid_configuration "history capacity must be in 1..=4096")

unfoldable pub latest : SignalBuffer → Option Sample
latest b = back b.samples

unfoldable pub window : SignalBuffer → List Sample
window b = b.samples

unfoldable pub check_after : SignalId → ℕ → Option Sample → Result Error (Unit {0})
check_after id at none = ok tt
check_after id at (some previous) =
    if leb at previous.at
    then err (Error.non_monotonic_time id.instrument id.parameter previous.at at)
    else ok tt

unfoldable pub check_time : ℕ → SignalBuffer → Result Error (Unit {0})
check_time at b = check_after b.id at (latest b)

-- Eviction before the push.
unfoldable pub append_sample : Sample → SignalBuffer → SignalBuffer
append_sample x b = record b { samples = push_bounded b.capacity x b.samples }

unfoldable pub push_checked : Result Error (Unit {0}) → Sample → Act SignalBuffer Error (Unit {0})
push_checked (err e) x b = (err e, b)
push_checked (ok u) x b = (ok tt, append_sample x b)

unfoldable pub push : Sample → Act SignalBuffer Error (Unit {0})
push x b =
    if not (signal_is x.signal b.id)
    then (err (Error.unknown_signal x.signal.instrument x.signal.parameter), b)
    else push_checked (check_time x.at b) x b

unfoldable pub replace_tail : Sample → SignalBuffer → SignalBuffer
replace_tail x b = record b { samples = pop_back b.samples ++ x ∷ [] }

unfoldable pub invalidate_after :
    Option Sample → ℕ → MeasurementFailure → Act SignalBuffer Error (Unit {0})
invalidate_after none at reason b =
    (err (Error.invalid_configuration "cannot invalidate a signal without an installed unit"), b)
invalidate_after (some last) at reason b =
    if ltb at last.at
    then (err (Error.non_monotonic_time b.id.instrument b.id.parameter last.at at), b)
    else let sample = unavailable_sample b.id last.unit at reason in
      if last.at == at then (ok tt, replace_tail sample b) else push sample b

unfoldable pub invalidate : ℕ → MeasurementFailure → Act SignalBuffer Error (Unit {0})
invalidate at reason b = invalidate_after (latest b) at reason b
