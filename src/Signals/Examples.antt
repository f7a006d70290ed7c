-- ===== src/Signals/Examples.antt =====
-- crates/lab-core/src/signal.rs: a buffer of two samples that sees three of them and a failure.
use lab_runtime.Base.{ℕ, ◌≤◌, ◌≡◌, refl, List, [], ◌∷◌, length, recent, pos, ok}
use lab_runtime.Model.{EngineeringUnit, Value}
use lab_runtime.Signals.Sample.{SignalId, MeasurementFailure, good_sample}
use lab_runtime.Signals.Buffer.{SignalBuffer, new}
use lab_runtime.Signals.Window.{SignalCall, calls, spec_calls, buffer_shows_recent}
use lab_runtime.Signals.Ordering.{Ordered, window-Ordered}

abbrev probe : SignalId
probe = record { instrument = 4; parameter = 9 }

abbrev kelvin : EngineeringUnit
kelvin = record { id = "K"; symbol = "K" }

abbrev two_deep : SignalBuffer
two_deep = record { id = probe; capacity = 2; samples = [] }

two_deep_made : new probe 2 ≡ ok two_deep
unfolding new
two_deep_made = refl

abbrev reading : ℕ → SignalCall
reading at = SignalCall.pushed (good_sample probe kelvin at (Value.integer (pos 5)))

abbrev four_calls : List SignalCall
four_calls =
    reading 1 ∷ reading 2 ∷ reading 3 ∷ SignalCall.invalidated 3 MeasurementFailure.transport ∷ []

buffer_shows_recent_example :
    ((calls four_calls two_deep).0 ≡ (spec_calls probe four_calls []).0)
    × ((calls four_calls two_deep).1.samples ≡ recent 2 (spec_calls probe four_calls []).1)
buffer_shows_recent_example = buffer_shows_recent probe 2 two_deep four_calls two_deep_made

window-Ordered_example :
    Ordered probe (calls four_calls two_deep).1.samples
    × (length (calls four_calls two_deep).1.samples ≤ 2)
window-Ordered_example = window-Ordered probe 2 two_deep four_calls two_deep_made
