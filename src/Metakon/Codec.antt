-- ===== src/Metakon/Codec.antt =====
-- crates/lab-core/src/metakon.rs: the checksum, the requests and the strict decoders. A byte is a
-- number below 256; a Frame is the list of its populated bytes.
use lab_runtime.Base.{
  ℕ, zero, suc, ◌+◌, ◌-◌, ◌*◌, ◌/◌, ◌%◌, ◌^◌, Bool, true, false, ◌&&◌, not, Option, none, some,
  List, [], ◌∷◌, ◌++◌, ◌==◌, u64_eq, ltb, if◌then◌else◌, length, Result, ok, err, guard, and_then,
  ok_or, ℤ, pos, negsuc,
}

abbrev pub max_frame_bytes : ℕ
max_frame_bytes = 38

pub record Address : Type 0 where
  pub device : ℕ
  pub channel : ℕ
  pub register : ℕ

pub data MetakonType : Type 0 where
  bool u8 i8 u16 i16 : MetakonType

unfoldable pub code : MetakonType → ℕ
code MetakonType.bool = 0
code MetakonType.u8 = 1
code MetakonType.i8 = 2
code MetakonType.u16 = 3
code MetakonType.i16 = 4

unfoldable pub width : MetakonType → ℕ
width MetakonType.bool = 1
width MetakonType.u8 = 1
width MetakonType.i8 = 1
width MetakonType.u16 = 2
width MetakonType.i16 = 2

pub data MetakonValue : Type 0 where
  bool : Bool → MetakonValue
  u8 : ℕ → MetakonValue
  i8 : ℤ → MetakonValue
  u16 : ℕ → MetakonValue
  i16 : ℤ → MetakonValue

unfoldable pub value_type : MetakonValue → MetakonType
value_type (MetakonValue.bool b) = MetakonType.bool
value_type (MetakonValue.u8 n) = MetakonType.u8
value_type (MetakonValue.i8 n) = MetakonType.i8
value_type (MetakonValue.u16 n) = MetakonType.u16
value_type (MetakonValue.i16 n) = MetakonType.i16

-- Two's complement in `w` values: 256 or 65536.
unfoldable pub to_unsigned : ℕ → ℤ → ℕ
to_unsigned w (pos n) = n % w
to_unsigned w (negsuc n) = w - 1 - n % w

unfoldable pub to_signed : ℕ → ℕ → ℤ
to_signed w n = if ltb n (w / 2) then pos n else negsuc (w - 1 - n)

unfoldable pub to_le_bytes : ℕ → List ℕ
to_le_bytes n = n % 256 ∷ n / 256 % 256 ∷ []

unfoldable pub from_le_bytes : ℕ → ℕ → ℕ
from_le_bytes low high = low + 256 * high

-- The bytes that `append_data` adds to a frame.
unfoldable pub append_data : MetakonValue → List ℕ
unfolding to_unsigned to_le_bytes
append_data (MetakonValue.bool b) = (if b then 1 else 0) ∷ []
append_data (MetakonValue.u8 n) = n ∷ []
append_data (MetakonValue.i8 n) = to_unsigned 256 n ∷ []
append_data (MetakonValue.u16 n) = to_le_bytes n
append_data (MetakonValue.i16 n) = to_le_bytes (to_unsigned 65536 n)

pub record ExpectedRead : Type 0 where
  pub address : Address
  pub value_type : MetakonType
  pub readable : Bool
  pub writable : Bool

unfoldable pub frame_len : ExpectedRead → ℕ
unfolding width
frame_len e = 6 + width e.value_type

pub data CodecError : Type 0 where
  frame_too_long wrong_length bad_crc wrong_address wrong_type invalid_value : CodecError
  unrepresentable : CodecError

-- `c ^ 2^i`, and so `c ^ 0x18` in two of them.
unfoldable pub flip : ℕ → ℕ → ℕ
flip i c = if c / 2 ^ i % 2 == 1 then c - 2 ^ i else c + 2 ^ i

-- One round of the inner loop, on the checksum and the lowest bit of the data. The bit 7 is zero
-- after the shift, so the feedback is added there.
unfoldable pub crc_bit : ℕ → ℕ → ℕ
unfolding flip
crc_bit octet checksum =
    let feedback = (octet + checksum) % 2 in
    (if feedback == 1 then flip 4 (flip 3 checksum) else checksum) / 2 + feedback * 128

unfoldable pub crc_bits : ℕ → ℕ → ℕ → ℕ
unfolding crc_bit
crc_bits zero octet checksum = checksum
crc_bits (suc rounds) octet checksum = crc_bits rounds (octet / 2) (crc_bit octet checksum)

unfoldable pub crc_from : ℕ → List ℕ → ℕ
unfolding crc_bits
crc_from checksum [] = checksum
crc_from checksum (byte ∷ bytes) = crc_from (crc_bits 8 byte checksum) bytes

unfoldable pub crc : List ℕ → ℕ
unfolding crc_from
crc bytes = crc_from 255 bytes

unfoldable pub finish_crc : List ℕ → List ℕ
unfolding crc
finish_crc frame = frame ++ crc frame ∷ []

unfoldable pub encode_read : Address → Result CodecError (List ℕ)
unfolding finish_crc
encode_read a = ok (finish_crc (a.device ∷ a.channel ∷ a.register ∷ 0 ∷ []))

unfoldable pub encode_write : Address → MetakonValue → Result CodecError (List ℕ)
unfolding finish_crc code value_type append_data
encode_write a v = ok (
    finish_crc
      ((a.device ∷ a.channel ∷ a.register ∷ 1 ∷ code (value_type v) ∷ []) ++ append_data v))

unfoldable pub split_last : List ℕ → Option (ℕ × List ℕ)
split_last [] = none
split_last (b ∷ bs) = elim (split_last bs) [
  | none ↦ some (b, [])
  | some (last, body) ↦ some (last, b ∷ body)
]

unfoldable pub validate_bound_and_crc : List ℕ → Result CodecError (Unit {0})
validate_bound_and_crc bytes =
    and_then (guard (not (ltb max_frame_bytes (length bytes))) CodecError.frame_too_long) λ _.
      and_then (ok_or (split_last bytes) CodecError.wrong_length)
        λ (received, body). guard (crc body == received) CodecError.bad_crc

-- `bytes[..4] == [device, channel, register, function]`, on at least four bytes.
unfoldable pub header_is : Address → ℕ → List ℕ → Bool
header_is a f (w ∷ x ∷ y ∷ z ∷ rest) = w == a.device && x == a.channel && y == a.register && z == f
header_is a f _ = false

-- `bytes[4] == flags`.
unfoldable pub flags_are : ℕ → List ℕ → Bool
flags_are flags (w ∷ x ∷ y ∷ z ∷ b ∷ rest) = b == flags
flags_are flags _ = false

-- `bytes[5..len - 1]`.
unfoldable pub data_bytes : List ℕ → List ℕ
unfolding split_last
data_bytes (v ∷ w ∷ x ∷ y ∷ z ∷ rest) = elim (split_last rest) [
  | none ↦ []
  | some (last, body) ↦ body
]
data_bytes _ = []

unfoldable pub expected_flags : ExpectedRead → ℕ
unfolding code
expected_flags e =
    code e.value_type + (if e.readable then 64 else 0) + (if e.writable then 128 else 0)

unfoldable pub decode_bool : ℕ → Result CodecError MetakonValue
decode_bool b =
    if b == 0
    then ok (MetakonValue.bool false)
    else if b == 1
    then ok (MetakonValue.bool true)
    else err CodecError.invalid_value

unfoldable pub decode_value : MetakonType → List ℕ → Result CodecError MetakonValue
unfolding decode_bool to_signed from_le_bytes
decode_value MetakonType.bool (b ∷ []) = decode_bool b
decode_value MetakonType.u8 (b ∷ []) = ok (MetakonValue.u8 b)
decode_value MetakonType.i8 (b ∷ []) = ok (MetakonValue.i8 (to_signed 256 b))
decode_value MetakonType.u16 (low ∷ high ∷ []) = ok (MetakonValue.u16 (from_le_bytes low high))
decode_value MetakonType.i16 (low ∷ high ∷ []) =
    ok (MetakonValue.i16 (to_signed 65536 (from_le_bytes low high)))
decode_value _ _ = err CodecError.wrong_length

unfoldable pub decode_read : List ℕ → ExpectedRead → Result CodecError MetakonValue
decode_read bytes e =
    and_then (guard (not (ltb max_frame_bytes (length bytes))) CodecError.frame_too_long) λ _.
      and_then (guard (length bytes == frame_len e) CodecError.wrong_length) λ _.
        and_then (validate_bound_and_crc bytes) λ _.
          and_then (guard (header_is e.address 0 bytes) CodecError.wrong_address) λ _.
            and_then (guard (flags_are (expected_flags e) bytes) CodecError.wrong_type)
              λ _. decode_value e.value_type (data_bytes bytes)

unfoldable pub decode_ack : List ℕ → Address → Result CodecError (Unit {0})
decode_ack bytes a =
    and_then (guard (not (ltb max_frame_bytes (length bytes))) CodecError.frame_too_long) λ _.
      and_then (guard (length bytes == 5) CodecError.wrong_length) λ _.
        and_then (validate_bound_and_crc bytes)
          λ _. guard (header_is a 1 bytes) CodecError.wrong_address
