-- ===== src/Sessions/Mutation.antt =====
-- apps/lab-runtime/src/sessions.rs: the mutations a client sends, their normal form, their derived
-- equality and their provisioning charge. The candidate of a simple device is a parameter `C` with
-- its derived equality and the length of its canonical bytes.
use lab_runtime.Base.{
  ℕ, ◌+◌, ◌*◌, ◌/◌, ◌≡◌, refl, Bool, true, false, ◌&&◌, not, Option, none, some, F64, finite, ℤ,
  pos, f64_eq, ◌==◌, u64_eq, eq_ℤ, if◌then◌else◌, text_eq, arith,
}
use lab_runtime.Model.{Value}
use lab_runtime.Sessions.Types.{Text, text_is, Payload, provisioning_structural_allowance}

pub data ManualOutputCommand : Type 0 where
  acquire renew : ℕ → ManualOutputCommand
  write : Value → ℕ → ManualOutputCommand
  safe : ManualOutputCommand

pub data PropertyMutationValue : Type 0 where
  integer : ℤ → PropertyMutationValue
  text : Text → PropertyMutationValue

pub data EmulatorPublication : Type 0 where
  good : F64 → EmulatorPublication
  unavailable : EmulatorPublication

-- The fields of each constructor stand in the order of the source.
pub data Mutation (C : Type 0) : Type 0 where
  manual_output : ℕ → ℕ → ℕ → ℕ → ManualOutputCommand → Mutation C
  configure_reference_fixed : ℕ → ℕ → F64 → Mutation C
  configure_reference_ramp : ℕ → ℕ → F64 → F64 → Mutation C
  retune_ramp : ℕ → ℕ → F64 → F64 → Mutation C
  configure_pid : ℕ → ℕ → F64 → F64 → F64 → F64 → F64 → Mutation C
  configure_controller : ℕ → ℕ → F64 → F64 → F64 → F64 → F64 → ℕ → ℕ → ℕ → ℕ → ℕ → ℕ → Mutation C
  start : ℕ → Mutation C
  pause : ℕ → Mutation C
  resume : ℕ → Mutation C
  reset_failed : ℕ → Mutation C
  recording_start : Text → Mutation C
  recording_stop : Text → ℕ → Mutation C
  experiment_annotate : Text → Text → Mutation C
  history_read_measurements : Text → Text → ℕ → ℕ → ℕ → ℕ → ℕ → ℕ → Option Text → Mutation C
  history_read_runs : Text → ℕ → Option Text → Mutation C
  reload_configuration : Mutation C
  stage_configuration : Mutation C
  stage_simple_device_candidate : ℕ → C → Mutation C
  apply_configuration : ℕ → ℕ → Mutation C
  configure_property : Text → ℕ → Text → PropertyMutationValue → ℕ → Mutation C
  publish_emulator_measurement : ℕ → ℕ → ℕ → EmulatorPublication → Mutation C
  restart_virtual_models : Mutation C
  reconnect_resource : ℕ → ℕ → Mutation C
  shutdown : Mutation C

unfoldable pub option_is : Option Text → Option Text → Bool
option_is none none = true
option_is none (some t) = false
option_is (some s) none = false
option_is (some s) (some t) = text_is s t

unfoldable pub value_is : Value → Value → Bool
value_is (Value.float x) (Value.float y) = f64_eq x y
value_is (Value.integer x) (Value.integer y) = eq_ℤ x y
value_is (Value.boolean x) (Value.boolean y) = if x then y else not y
value_is (Value.text x) (Value.text y) = x == y
value_is (Value.enum x) (Value.enum y) = x == y
value_is _ _ = false

unfoldable pub command_is : ManualOutputCommand → ManualOutputCommand → Bool
unfolding value_is
command_is (ManualOutputCommand.acquire l) (ManualOutputCommand.acquire l') = l == l'
command_is (ManualOutputCommand.renew l) (ManualOutputCommand.renew l') = l == l'
command_is (ManualOutputCommand.write v t) (ManualOutputCommand.write v' t') =
    value_is v v' && t == t'
command_is ManualOutputCommand.safe ManualOutputCommand.safe = true
command_is _ _ = false

unfoldable pub property_is : PropertyMutationValue → PropertyMutationValue → Bool
property_is (PropertyMutationValue.integer x) (PropertyMutationValue.integer y) = eq_ℤ x y
property_is (PropertyMutationValue.text s) (PropertyMutationValue.text t) = text_is s t
property_is _ _ = false

unfoldable pub publication_is : EmulatorPublication → EmulatorPublication → Bool
publication_is (EmulatorPublication.good x) (EmulatorPublication.good y) = f64_eq x y
publication_is EmulatorPublication.unavailable EmulatorPublication.unavailable = true
publication_is _ _ = false

-- What the store uses of a simple-device candidate: its derived PartialEq and the length of its
-- canonical bytes.
pub record Candidate (C : Type 0) : Type 0 where
  pub same : C → C → Bool
  pub canonical_len : C → ℕ

unfoldable pub zero_of : F64 → F64
zero_of v = if f64_eq v (finite (pos 0)) then finite (pos 0) else v

zero_of_idem : (v : F64) → zero_of (zero_of v) ≡ zero_of v
unfolding zero_of f64_eq eq_ℤ
zero_of_idem v = ground arith

module _ {C : Type 0} where
  unfoldable pub normalized : Mutation C → Mutation C
  unfolding zero_of
  normalized (Mutation.retune_ramp r e target rate) =
      Mutation.retune_ramp r e (zero_of target) (zero_of rate)
  normalized (Mutation.configure_pid c e kp ki kd lo hi) =
      Mutation.configure_pid c e (zero_of kp) (zero_of ki) (zero_of kd) (zero_of lo) (zero_of hi)
  normalized m = m

  unfoldable pub provisioning_charge : Candidate C → Mutation C → ℕ
  provisioning_charge candidate (Mutation.stage_simple_device_candidate e c) =
      (candidate.canonical_len c + 63) / 64 * 64 + provisioning_structural_allowance
  provisioning_charge candidate _ = 0

  unfoldable pub same_mutation : Candidate C → Mutation C → Mutation C → Bool
  unfolding option_is command_is property_is publication_is
  same_mutation candidate (Mutation.manual_output x0 x1 x2 x3 x4)
        (Mutation.manual_output y0 y1 y2 y3 y4) =
      x0 == y0 && x1 == y1 && x2 == y2 && x3 == y3 && command_is x4 y4
  same_mutation candidate (Mutation.configure_reference_fixed x0 x1 x2)
        (Mutation.configure_reference_fixed y0 y1 y2) =
      x0 == y0 && x1 == y1 && f64_eq x2 y2
  same_mutation candidate (Mutation.configure_reference_ramp x0 x1 x2 x3)
        (Mutation.configure_reference_ramp y0 y1 y2 y3) =
      x0 == y0 && x1 == y1 && f64_eq x2 y2 && f64_eq x3 y3
  same_mutation candidate (Mutation.retune_ramp x0 x1 x2 x3) (Mutation.retune_ramp y0 y1 y2 y3) =
      x0 == y0 && x1 == y1 && f64_eq x2 y2 && f64_eq x3 y3
  same_mutation candidate (Mutation.configure_pid x0 x1 x2 x3 x4 x5 x6)
        (Mutation.configure_pid y0 y1 y2 y3 y4 y5 y6) =
      x0 == y0
      && x1 == y1
      && f64_eq x2 y2
      && f64_eq x3 y3
      && f64_eq x4 y4
      && f64_eq x5 y5
      && f64_eq x6 y6
  same_mutation candidate (Mutation.configure_controller x0 x1 x2 x3 x4 x5 x6 x7 x8 x9 x10 x11 x12)
        (Mutation.configure_controller y0 y1 y2 y3 y4 y5 y6 y7 y8 y9 y10 y11 y12) =
      x0 == y0
      && x1 == y1
      && f64_eq x2 y2
      && f64_eq x3 y3
      && f64_eq x4 y4
      && f64_eq x5 y5
      && f64_eq x6 y6
      && x7 == y7
      && x8 == y8
      && x9 == y9
      && x10 == y10
      && x11 == y11
      && x12 == y12
  same_mutation candidate (Mutation.start x0) (Mutation.start y0) = x0 == y0
  same_mutation candidate (Mutation.pause x0) (Mutation.pause y0) = x0 == y0
  same_mutation candidate (Mutation.resume x0) (Mutation.resume y0) = x0 == y0
  same_mutation candidate (Mutation.reset_failed x0) (Mutation.reset_failed y0) = x0 == y0
  same_mutation candidate (Mutation.recording_start x0) (Mutation.recording_start y0) =
      text_is x0 y0
  same_mutation candidate (Mutation.recording_stop x0 x1) (Mutation.recording_stop y0 y1) =
      text_is x0 y0 && x1 == y1
  same_mutation candidate (Mutation.experiment_annotate x0 x1)
        (Mutation.experiment_annotate y0 y1) =
      text_is x0 y0 && text_is x1 y1
  same_mutation candidate (Mutation.history_read_measurements x0 x1 x2 x3 x4 x5 x6 x7 x8)
        (Mutation.history_read_measurements y0 y1 y2 y3 y4 y5 y6 y7 y8) =
      text_is x0 y0
      && text_is x1 y1
      && x2 == y2
      && x3 == y3
      && x4 == y4
      && x5 == y5
      && x6 == y6
      && x7 == y7
      && option_is x8 y8
  same_mutation candidate (Mutation.history_read_runs x0 x1 x2)
        (Mutation.history_read_runs y0 y1 y2) =
      text_is x0 y0 && x1 == y1 && option_is x2 y2
  same_mutation candidate Mutation.reload_configuration Mutation.reload_configuration = true
  same_mutation candidate Mutation.stage_configuration Mutation.stage_configuration = true
  same_mutation candidate (Mutation.stage_simple_device_candidate x0 x1)
        (Mutation.stage_simple_device_candidate y0 y1) =
      x0 == y0 && candidate.same x1 y1
  same_mutation candidate (Mutation.apply_configuration x0 x1)
        (Mutation.apply_configuration y0 y1) =
      x0 == y0 && x1 == y1
  same_mutation candidate (Mutation.configure_property x0 x1 x2 x3 x4)
        (Mutation.configure_property y0 y1 y2 y3 y4) =
      text_is x0 y0 && x1 == y1 && text_is x2 y2 && property_is x3 y3 && x4 == y4
  same_mutation candidate (Mutation.publish_emulator_measurement x0 x1 x2 x3)
        (Mutation.publish_emulator_measurement y0 y1 y2 y3) =
      x0 == y0 && x1 == y1 && x2 == y2 && publication_is x3 y3
  same_mutation candidate Mutation.restart_virtual_models Mutation.restart_virtual_models = true
  same_mutation candidate (Mutation.reconnect_resource x0 x1) (Mutation.reconnect_resource y0 y1) =
      x0 == y0 && x1 == y1
  same_mutation candidate Mutation.shutdown Mutation.shutdown = true
  same_mutation candidate _ _ = false

  pub normalized_is_idempotent : (m : Mutation C) → normalized (normalized m) ≡ normalized m
  unfolding normalized
  normalized_is_idempotent (Mutation.manual_output x0 x1 x2 x3 x4) = refl
  normalized_is_idempotent (Mutation.configure_reference_fixed x0 x1 x2) = refl
  normalized_is_idempotent (Mutation.configure_reference_ramp x0 x1 x2 x3) = refl
  normalized_is_idempotent (Mutation.retune_ramp x0 x1 x2 x3) =
      cc (zero_of_idem x2, zero_of_idem x3)
  normalized_is_idempotent (Mutation.configure_pid x0 x1 x2 x3 x4 x5 x6) =
      cc (zero_of_idem x2, zero_of_idem x3, zero_of_idem x4, zero_of_idem x5, zero_of_idem x6)
  normalized_is_idempotent
        (Mutation.configure_controller x0 x1 x2 x3 x4 x5 x6 x7 x8 x9 x10 x11 x12) =
      refl
  normalized_is_idempotent (Mutation.start x0) = refl
  normalized_is_idempotent (Mutation.pause x0) = refl
  normalized_is_idempotent (Mutation.resume x0) = refl
  normalized_is_idempotent (Mutation.reset_failed x0) = refl
  normalized_is_idempotent (Mutation.recording_start x0) = refl
  normalized_is_idempotent (Mutation.recording_stop x0 x1) = refl
  normalized_is_idempotent (Mutation.experiment_annotate x0 x1) = refl
  normalized_is_idempotent (Mutation.history_read_measurements x0 x1 x2 x3 x4 x5 x6 x7 x8) = refl
  normalized_is_idempotent (Mutation.history_read_runs x0 x1 x2) = refl
  normalized_is_idempotent Mutation.reload_configuration = refl
  normalized_is_idempotent Mutation.stage_configuration = refl
  normalized_is_idempotent (Mutation.stage_simple_device_candidate x0 x1) = refl
  normalized_is_idempotent (Mutation.apply_configuration x0 x1) = refl
  normalized_is_idempotent (Mutation.configure_property x0 x1 x2 x3 x4) = refl
  normalized_is_idempotent (Mutation.publish_emulator_measurement x0 x1 x2 x3) = refl
  normalized_is_idempotent Mutation.restart_virtual_models = refl
  normalized_is_idempotent (Mutation.reconnect_resource x0 x1) = refl
  normalized_is_idempotent Mutation.shutdown = refl

  unfoldable pub mutation_payload : Candidate C → Payload (Mutation C)
  unfolding normalized same_mutation provisioning_charge
  mutation_payload candidate = record {
    normalized = normalized;
    same = same_mutation candidate;
    charge = provisioning_charge candidate;
    normalized_idem = normalized_is_idempotent;
  }
