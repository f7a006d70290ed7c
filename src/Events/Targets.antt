-- ===== src/Events/Targets.antt =====
-- apps/lab-runtime/src/events.rs: Target, with its key, and the targets in key order. Texts are bytes.
use lab_runtime.Base.{
  ℕ, Bool, true, false, ◌&&◌, ◌||◌, ltb, ◌==◌, u64_eq, if◌then◌else◌, List, [], ◌∷◌, ◌++◌,
}
use lab_runtime.Output.Types.{ActuatorId, actuator_eq}
use lab_runtime.Signals.Sample.{SignalId, signal_is}
use lab_runtime.Sessions.Types.{Text}
use lab_runtime.Sessions.ScopeId.{decimal}

-- ControllerId, ReferenceId and ComponentId are their u64.
pub data Target : Type 0 where
  signal_target : SignalId → Target
  controller_target reference_target component_target : ℕ → Target
  output_target : ActuatorId → Target

-- `{}:{}`.
unfoldable pub two_parts : ℕ → ℕ → Text
unfolding decimal
two_parts a b = decimal a ++ 58 ∷ decimal b

-- "signal:", "controller:", "reference:", "output:" and "component:" before the numbers.
unfoldable pub key : Target → Text
unfolding two_parts decimal
key (Target.signal_target s) =
    115 ∷ 105 ∷ 103 ∷ 110 ∷ 97 ∷ 108 ∷ 58 ∷ two_parts s.instrument s.parameter
key (Target.controller_target id) =
    99 ∷ 111 ∷ 110 ∷ 116 ∷ 114 ∷ 111 ∷ 108 ∷ 108 ∷ 101 ∷ 114 ∷ 58 ∷ decimal id
key (Target.reference_target id) =
    114 ∷ 101 ∷ 102 ∷ 101 ∷ 114 ∷ 101 ∷ 110 ∷ 99 ∷ 101 ∷ 58 ∷ decimal id
key (Target.output_target a) =
    111 ∷ 117 ∷ 116 ∷ 112 ∷ 117 ∷ 116 ∷ 58 ∷ two_parts a.instrument a.parameter
key (Target.component_target id) =
    99 ∷ 111 ∷ 109 ∷ 112 ∷ 111 ∷ 110 ∷ 101 ∷ 110 ∷ 116 ∷ 58 ∷ decimal id

unfoldable pub key_is : Text → Text → Bool
key_is [] [] = true
key_is (a ∷ x) (b ∷ y) = a == b && key_is x y
key_is [] (b ∷ y) = false
key_is (a ∷ x) [] = false

-- The order of texts by their bytes.
unfoldable pub key_before : Text → Text → Bool
key_before [] [] = false
key_before [] (b ∷ y) = true
key_before (a ∷ x) [] = false
key_before (a ∷ x) (b ∷ y) = ltb a b || a == b && key_before x y

-- `sort_by_key`, which is stable.
unfoldable pub insert_target : Target → List Target → List Target
unfolding key_before key
insert_target t [] = t ∷ []
insert_target t (u ∷ us) =
    let rest = insert_target t us in
    if key_before (key u) (key t) || key_is (key u) (key t) then u ∷ rest else t ∷ u ∷ us

unfoldable pub sort_from : List Target → List Target → List Target
unfolding insert_target
sort_from sorted [] = sorted
sort_from sorted (t ∷ ts) = sort_from (insert_target t sorted) ts

unfoldable pub sort_targets : List Target → List Target
unfolding sort_from
sort_targets ts = sort_from [] ts

-- The derived equality.
unfoldable pub target_is : Target → Target → Bool
target_is (Target.signal_target s) (Target.signal_target t) = signal_is s t
target_is (Target.controller_target m) (Target.controller_target n) = m == n
target_is (Target.reference_target m) (Target.reference_target n) = m == n
target_is (Target.component_target m) (Target.component_target n) = m == n
target_is (Target.output_target a) (Target.output_target b) = actuator_eq a b
target_is _ _ = false

unfoldable pub tracks : List Target → Target → Bool
unfolding target_is
tracks [] t = false
tracks (u ∷ us) t = target_is u t || tracks us t

unfoldable pub has_key : List Target → Text → Bool
unfolding key_is key
has_key [] k = false
has_key (u ∷ us) k = key_is (key u) k || has_key us k
