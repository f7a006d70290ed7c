-- ===== src/Model/Defs.antt =====
-- crates/lab-core/src/model.rs: values, schemas, units, errors and `ValueSpec::validate`.
use Prim.Native.Char.{code}
use Prim.Native.String.{len}
use lab_runtime.Base.{
  ℕ, Bool, true, false, ◌&&◌, ◌||◌, not, List, [], ◌∷◌, ◌++◌, String, leb, ◌==◌, u64_eq, text_eq,
  if◌then◌else◌, length, F64, ℤ, is_finite, f64_le, in_range, le_ℤ, Result, ok, err, guard,
  and_then,
}

pub data ValueType : Type 0 where
  float integer boolean text enum : ValueType

pub data Value : Type 0 where
  float : F64 → Value
  integer : ℤ → Value
  boolean : Bool → Value
  text : String → Value
  enum : String → Value

pub data ValueSpec : Type 0 where
  float : F64 → F64 → ValueSpec
  integer : ℤ → ℤ → ValueSpec
  boolean : ValueSpec
  text : ℕ → ValueSpec
  enum : List String → ValueSpec

-- The errors of output authority operations; they are raised in Output.
pub data OutputError : Type 0 where
  unknown_actuator invalid_profile invalid_state stale_lease expired wrong_unit : OutputError
  busy nothing_pending unknown_dispatch invalid_time counter_exhausted : OutputError

-- The errors of native controllers; they are raised in Control and Lifecycle.
pub data ControllerError : Type 0 where
  unknown_controller duplicate_controller unknown_reference duplicate_reference : ControllerError
  invalid_controller_state invalid_controller_configuration input_unavailable : ControllerError
  stale_input invalid_tick_time algorithm output_rejected : ControllerError
  controller_revision_conflict controller_revision_exhausted : ControllerError

-- The variants that carry an error of output or of a controller, or of no other component.
pub data Error : Type 0 where
  output : OutputError → Error
  controller : ControllerError → Error
  unknown_instrument : ℕ → Error
  unknown_parameter : ℕ → ℕ → Error
  unknown_signal : ℕ → ℕ → Error
  duplicate_instrument : ℕ → Error
  wrong_type : ValueType → ValueType → Error
  non_finite out_of_range : Error
  read_only_parameter : ℕ → Error
  operation_not_allowed : ℕ → Error
  invalid_configuration : String → Error
  recording_unavailable operation_failed : Error
  non_monotonic_time : ℕ → ℕ → ℕ → ℕ → Error

-- A unit is compared by its identity; the symbol is for display.
pub record EngineeringUnit : Type 0 where
  pub id : String
  pub symbol : String

abbrev pub max_text_bytes : ℕ
max_text_bytes = 1024

abbrev pub max_enum_choices : ℕ
max_enum_choices = 64

unfoldable pub unit_eq : EngineeringUnit → EngineeringUnit → Bool
unit_eq u v = u.id == v.id

unfoldable pub type_of : Value → ValueType
type_of (Value.float x) = ValueType.float
type_of (Value.integer n) = ValueType.integer
type_of (Value.boolean b) = ValueType.boolean
type_of (Value.text s) = ValueType.text
type_of (Value.enum s) = ValueType.enum

unfoldable pub spec_type : ValueSpec → ValueType
spec_type (ValueSpec.float lo hi) = ValueType.float
spec_type (ValueSpec.integer lo hi) = ValueType.integer
spec_type ValueSpec.boolean = ValueType.boolean
spec_type (ValueSpec.text n) = ValueType.text
spec_type (ValueSpec.enum cs) = ValueType.enum

unfoldable pub type_eq : ValueType → ValueType → Bool
type_eq ValueType.float ValueType.float = true
type_eq ValueType.integer ValueType.integer = true
type_eq ValueType.boolean ValueType.boolean = true
type_eq ValueType.text ValueType.text = true
type_eq ValueType.enum ValueType.enum = true
type_eq _ _ = false

-- Unicode White_Space, which `str::trim` removes.
unfoldable pub is_whitespace : ℕ → Bool
is_whitespace c =
    leb 9 c && leb c 13
    || c == 32
    || c == 133
    || c == 160
    || c == 5760
    || leb 8192 c && leb c 8202
    || c == 8232
    || c == 8233
    || c == 8239
    || c == 8287
    || c == 12288

-- `s.trim().is_empty()`.
unfoldable pub is_blank : String → Bool
unfolding is_whitespace
is_blank String.[] = true
is_blank (String.◌∷◌ c s) = is_whitespace (code c) && is_blank s

unfoldable pub contains : List String → String → Bool
contains [] s = false
contains (t ∷ ts) s = t == s || contains ts s

-- The choices before the one that is checked are `seen`.
unfoldable pub choices_valid : List String → List String → Bool
unfolding is_blank contains
choices_valid seen [] = true
choices_valid seen (c ∷ cs) =
    not (is_blank c)
    && leb (len c) max_text_bytes
    && not (contains seen c)
    && choices_valid (seen ++ c ∷ []) cs

unfoldable pub is_empty : List String → Bool
is_empty [] = true
is_empty (c ∷ cs) = false

unfoldable pub definition_valid : ValueSpec → Bool
unfolding choices_valid is_empty
definition_valid (ValueSpec.float lo hi) = is_finite lo && is_finite hi && f64_le lo hi
definition_valid (ValueSpec.integer lo hi) = le_ℤ lo hi
definition_valid ValueSpec.boolean = true
definition_valid (ValueSpec.text n) = leb n max_text_bytes
definition_valid (ValueSpec.enum cs) =
    not (is_empty cs) && leb (length cs) max_enum_choices && choices_valid [] cs

unfoldable pub validate_definition : ValueSpec → Result Error (Unit {0})
validate_definition spec =
    guard (definition_valid spec) (invalid_configuration "invalid value constraint")

-- The last clause is the source's `unreachable!`: the kinds have been compared before.
unfoldable pub check_value : ValueSpec → Value → Result Error (Unit {0})
unfolding contains
check_value (ValueSpec.float lo hi) (Value.float x) =
    if is_finite x then guard (in_range lo hi x) out_of_range else err non_finite
check_value (ValueSpec.integer lo hi) (Value.integer n) =
    guard (le_ℤ lo n && le_ℤ n hi) out_of_range
check_value ValueSpec.boolean (Value.boolean b) = ok tt
check_value (ValueSpec.text n) (Value.text s) = guard (leb (len s) n) out_of_range
check_value (ValueSpec.enum cs) (Value.enum s) = guard (contains cs s) out_of_range
check_value _ _ = err out_of_range

unfoldable pub validate : ValueSpec → Value → Result Error (Unit {0})
unfolding validate_definition type_eq spec_type type_of
validate spec v = and_then (validate_definition spec) λ _.
    and_then
      (guard (type_eq (spec_type spec) (type_of v)) (wrong_type (spec_type spec) (type_of v)))
      λ _. check_value spec v
