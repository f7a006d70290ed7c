-- ===== src/Metakon/Scaling.antt =====
-- crates/lab-core/src/metakon.rs: the temperature of register 1 and the scaled i8 of register 6.
use lab_runtime.Base.{
  suc, ◌/◌, ◌%◌, Bool, true, false, ◌&&◌, ◌||◌, not, ◌==◌, u64_eq, if◌then◌else◌, Result, ok, err,
  ℤ, pos, negsuc, le_ℤ, F64, finite, is_finite, in_range, f64_le, f64_mul, f64_div, f64_neg,
  f64_of_nat, f64_zero, magnitude, neg_ℤ, one_units,
}
use lab_runtime.Model.{Value}
use lab_runtime.Metakon.Codec.{MetakonValue, CodecError}

pub data TemperatureReading : Type 0 where
  value : F64 → TemperatureReading
  sensor_fault : TemperatureReading

-- Of an i16: the value is exact.
unfoldable pub f64_of_ℤ : ℤ → F64
unfolding f64_of_nat f64_neg
f64_of_ℤ (pos n) = f64_of_nat n
f64_of_ℤ (negsuc n) = f64_neg (f64_of_nat (suc n))

unfoldable pub is_scale : F64 → Bool
is_scale s = is_finite s && not (f64_le s f64_zero)

-- -32768 is the fault of the sensor.
unfoldable pub is_fault : ℤ → Bool
is_fault (pos n) = false
is_fault (negsuc n) = n == 32767

unfoldable pub finite_reading : F64 → Result CodecError TemperatureReading
finite_reading x =
    if is_finite x then ok (TemperatureReading.value x) else err CodecError.unrepresentable

unfoldable pub scale_raw : ℤ → F64 → Result CodecError TemperatureReading
unfolding is_fault f64_of_ℤ finite_reading f64_mul
scale_raw raw scale =
    if is_fault raw
    then ok TemperatureReading.sensor_fault
    else if le_ℤ (negsuc 998) raw && le_ℤ raw (pos 9999)
    then finite_reading (f64_mul (f64_of_ℤ raw) scale)
    else err CodecError.invalid_value

unfoldable pub scale_i16 : MetakonValue → F64 → Result CodecError TemperatureReading
unfolding scale_raw
scale_i16 (MetakonValue.i16 raw) scale = scale_raw raw scale
scale_i16 _ scale = err CodecError.wrong_type

unfoldable pub scale_temperature : MetakonValue → F64 → Result CodecError TemperatureReading
unfolding is_scale scale_i16
scale_temperature v scale =
    if is_scale scale then scale_i16 v scale else err CodecError.unrepresentable

-- `fract() != 0.0`.
unfoldable pub has_fraction : F64 → Bool
unfolding magnitude
has_fraction (finite n) = not (magnitude n % one_units == 0)
has_fraction _ = true

-- `as i8` of an integer in the range of i8.
unfoldable pub whole_part : F64 → ℤ
unfolding neg_ℤ
whole_part (finite (pos n)) = pos (n / one_units)
whole_part (finite (negsuc n)) = neg_ℤ (pos (suc n / one_units))
whole_part _ = pos 0

unfoldable pub encode_raw : F64 → Result CodecError ℤ
unfolding has_fraction whole_part f64_neg f64_of_nat
encode_raw raw =
    if not (is_finite raw)
      || has_fraction raw
      || not (in_range (f64_neg (f64_of_nat 100)) (f64_of_nat 100) raw)
    then err CodecError.unrepresentable
    else ok (whole_part raw)

unfoldable pub encode_float : Value → F64 → Result CodecError ℤ
unfolding encode_raw f64_div
encode_float (Value.float x) scale =
    if is_finite x then encode_raw (f64_div x scale) else err CodecError.unrepresentable
encode_float _ scale = err CodecError.wrong_type

unfoldable pub encode_scaled_i8 : Value → F64 → Result CodecError ℤ
unfolding is_scale encode_float
encode_scaled_i8 v scale =
    if is_scale scale then encode_float v scale else err CodecError.unrepresentable
