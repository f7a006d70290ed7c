-- ===== src/Metakon/ScalingExamples.antt =====
-- crates/lab-core/src/metakon.rs: readings and commands with a scale of one half.
use lab_runtime.Base.{
  ◌*◌, ◌^◌, ◌-◌, ◌≡◌, refl, ok, err, pos, negsuc, F64, finite, is_finite, f64_le, in_range,
}
use lab_runtime.Model.{Value}
use lab_runtime.Metakon.Codec.{MetakonValue, CodecError}
use lab_runtime.Metakon.Scaling.{TemperatureReading, scale_temperature, encode_scaled_i8}

abbrev half : F64
half = finite (pos (2 ^ 1073))

scaled_reading :
    scale_temperature (MetakonValue.i16 (pos 51)) half
    ≡ ok (TemperatureReading.value (finite (pos (51 * 2 ^ 1073))))
unfolding scale_temperature is_finite f64_le
scaled_reading = refl

fault_reading :
    scale_temperature (MetakonValue.i16 (negsuc 32767)) half ≡ ok TemperatureReading.sensor_fault
unfolding scale_temperature is_finite f64_le
fault_reading = refl

encoded : encode_scaled_i8 (Value.float (finite (negsuc (2 ^ 1073 - 1)))) half ≡ ok (negsuc 0)
unfolding encode_scaled_i8 is_finite f64_le in_range
encoded = refl

not_whole :
    encode_scaled_i8 (Value.float (finite (pos (2 ^ 1072)))) half ≡ err CodecError.unrepresentable
unfolding encode_scaled_i8 is_finite f64_le in_range
not_whole = refl

beyond_range :
    encode_scaled_i8 (Value.float (finite (pos (51 * 2 ^ 1074)))) half
    ≡ err CodecError.unrepresentable
unfolding encode_scaled_i8 is_finite f64_le in_range
beyond_range = refl
