-- ===== src/Metakon/Examples.antt =====
-- crates/lab-core/src/metakon.rs: a thermocouple register and an output register.
use lab_runtime.Base.{◌≡◌, ◌↔◌, refl, true, false, [], ◌∷◌, u64_eq, ok, err, pos, negsuc, arith}
use lab_runtime.Metakon.Codec.{
  Address, MetakonType, MetakonValue, ExpectedRead, CodecError, code, width, value_type,
  to_unsigned, to_signed, to_le_bytes, from_le_bytes, append_data, frame_len, crc, finish_crc,
  split_last, validate_bound_and_crc, header_is, flags_are, data_bytes, expected_flags, decode_bool,
  decode_value, decode_read, decode_ack, encode_read, encode_write,
}
use lab_runtime.Metakon.Frames.{response, acknowledgement, Fits}
use lab_runtime.Metakon.Codec.{flip, crc_bit, crc_bits, crc_from}
use lab_runtime.Metakon.Values.{decode_read-response, accepts_response_only, decode_ack_exactly}
use lab_runtime.Metakon.Requests.{encode_write-injective}

opened : Unit {0}
unfolding flip crc_bit crc_bits crc_from crc finish_crc encode_read encode_write split_last
    validate_bound_and_crc header_is flags_are data_bytes expected_flags decode_bool decode_value
    decode_read decode_ack response acknowledgement code width value_type to_unsigned to_signed
    to_le_bytes from_le_bytes append_data frame_len Fits
opened = tt

crc_zero : crc (0 ∷ []) ≡ 53
unfolding opened
crc_zero = refl

crc_one : crc (1 ∷ []) ≡ 107
unfolding opened
crc_one = refl

crc_ones : crc (255 ∷ []) ≡ 0
unfolding opened
crc_ones = refl

abbrev thermocouple : ExpectedRead
thermocouple = record {
  address = record { device = 1; channel = 0; register = 1 };
  value_type = MetakonType.i16;
  readable = true;
  writable = false;
}

abbrev output_register : Address
output_register = record { device = 15; channel = 0; register = 6 }

-- 23.5 degrees in tenths, and the sensor fault.
abbrev warm : MetakonValue
warm = MetakonValue.i16 (pos 235)

abbrev fault : MetakonValue
fault = MetakonValue.i16 (negsuc 32767)

decode_read-response_example : decode_read (response thermocouple fault) thermocouple ≡ ok fault
unfolding opened
decode_read-response_example = decode_read-response thermocouple fault refl (omega arith)

warm_decoded : decode_read (response thermocouple warm) thermocouple ≡ ok warm
unfolding opened
warm_decoded = refl

damaged_refused :
    decode_read (1 ∷ 0 ∷ 1 ∷ 0 ∷ 68 ∷ 236 ∷ 0 ∷ 0 ∷ []) thermocouple ≡ err CodecError.bad_crc
unfolding opened
damaged_refused = refl

accepts_response_only_example :
    (MetakonType.i16 ≡ MetakonType.i16) × (response thermocouple warm ≡ response thermocouple warm)
unfolding opened
accepts_response_only_example =
    accepts_response_only (response thermocouple warm) thermocouple warm (ground arith) warm_decoded

decode_ack_exactly_example :
    (decode_ack (15 ∷ 0 ∷ 6 ∷ 1 ∷ 0 ∷ []) output_register ≡ ok tt)
    ↔ (15 ∷ 0 ∷ 6 ∷ 1 ∷ 0 ∷ [] ≡ acknowledgement output_register)
decode_ack_exactly_example = decode_ack_exactly (15 ∷ 0 ∷ 6 ∷ 1 ∷ 0 ∷ []) output_register

encode_write-injective_example :
    (output_register ≡ output_register) × (MetakonValue.i8 (pos 35) ≡ MetakonValue.i8 (pos 35))
unfolding opened
encode_write-injective_example =
    encode_write-injective output_register output_register (MetakonValue.i8 (pos 35))
      (MetakonValue.i8 (pos 35)) (omega arith) (omega arith) refl
