-- ===== src/Metakon/Frames.antt =====
-- crates/lab-core/src/metakon.rs: canonical frames, the checksum at the end of a frame, and the data
-- bytes of a value.
use lab_runtime.Base.{
  ℕ, ◌+◌, ◌*◌, ◌/◌, ◌%◌, ◌<◌, ◌≡◌, ◌⊎◌, refl, sym, ap, ◌∙◌, none, some, List, [], ◌∷◌, ◌++◌, u64_eq,
  length, length-append, ok, pos, negsuc, arith, Option-cases, inl, inr,
}
use lab_runtime.Metakon.Codec.{
  Address, MetakonType, MetakonValue, ExpectedRead, width, value_type, to_unsigned, to_signed,
  to_le_bytes, from_le_bytes, append_data, crc, finish_crc, split_last, validate_bound_and_crc,
  expected_flags, decode_bool, decode_value, max_frame_bytes,
}

-- The frame that a device answers a read with.
unfoldable pub response : ExpectedRead → MetakonValue → List ℕ
unfolding finish_crc expected_flags append_data
response e v = finish_crc (
    (e.address.device ∷ e.address.channel ∷ e.address.register ∷ 0 ∷ expected_flags e ∷ [])
    ++ append_data v)

-- The frame that a device acknowledges a write with.
unfoldable pub acknowledgement : Address → List ℕ
unfolding finish_crc
acknowledgement a = finish_crc (a.device ∷ a.channel ∷ a.register ∷ 1 ∷ [])

-- The number of a value is in the range of its type.
unfoldable pub Fits : MetakonValue → Type 0
Fits (MetakonValue.bool b) = Unit
Fits (MetakonValue.u8 n) = n < 256
Fits (MetakonValue.i8 (pos n)) = n < 128
Fits (MetakonValue.i8 (negsuc n)) = n < 128
Fits (MetakonValue.u16 n) = n < 65536
Fits (MetakonValue.i16 (pos n)) = n < 32768
Fits (MetakonValue.i16 (negsuc n)) = n < 32768

pub split_last-append : (body : List ℕ) (b : ℕ) → split_last (body ++ b ∷ []) ≡ some (b, body)
unfolding split_last
split_last-append [] b = refl
split_last-append (x ∷ body) b = rw (split_last-append body b) refl

split_last-none : (bytes : List ℕ) → split_last bytes ≡ none → bytes ≡ []
unfolding split_last
split_last-none [] h = refl
split_last-none (x ∷ bytes) h = elim (Option-cases (split_last bytes)) [
  | inl last ↦ ground arith
  | inr (parts, more) ↦ ground arith
]

append-split_last :
    (bytes body : List ℕ) (b : ℕ) → split_last bytes ≡ some (b, body) → bytes ≡ body ++ b ∷ []
unfolding split_last
append-split_last [] body b h = ground arith
append-split_last (x ∷ bytes) body b h = elim (Option-cases (split_last bytes)) [
  | inl last ↦ let empty : bytes ≡ [] = split_last-none bytes last in ground (arith, empty)
  | inr ((c, rest), more) ↦
      let inner : bytes ≡ rest ++ c ∷ [] = append-split_last bytes rest c more in
      ground (arith, inner)
]

pub validate-finish_crc :
    (body : List ℕ)
    → length body < max_frame_bytes
    → validate_bound_and_crc (finish_crc body) ≡ ok tt
unfolding validate_bound_and_crc finish_crc
validate-finish_crc body short =
    let parts = split_last-append body (crc body) in
    let size : length (body ++ crc body ∷ []) ≡ length body + 1 =
      length-append body (crc body ∷ []) in
    ground (arith, parts, size)

pub finish_crc-validate :
    (bytes : List ℕ)
    → validate_bound_and_crc bytes ≡ ok tt
    → (body : List ℕ) × (bytes ≡ finish_crc body)
unfolding validate_bound_and_crc finish_crc
finish_crc-validate bytes h = elim (Option-cases (split_last bytes)) [
  | inl empty ↦ ground arith
  | inr ((received, body), parts) ↦
      let whole : bytes ≡ body ++ received ∷ [] = append-split_last bytes body received parts in
      let matches : crc body ≡ received = ground arith in
      (body, whole ∙ ap (λ c. body ++ c ∷ []) (sym matches))
]

-- Two's complement, both ways.
pub to_unsigned-to_signed : (n : ℕ) → n < 256 → to_unsigned 256 (to_signed 256 n) ≡ n
unfolding to_unsigned to_signed
to_unsigned-to_signed n h = ground arith

to_unsigned-to_signed_16 : (n : ℕ) → n < 65536 → to_unsigned 65536 (to_signed 65536 n) ≡ n
unfolding to_unsigned to_signed
to_unsigned-to_signed_16 n h = ground arith

to_le_bytes-from_le_bytes :
    (low high : ℕ) → low < 256 → high < 256 → to_le_bytes (from_le_bytes low high) ≡ low ∷ high ∷ []
unfolding to_le_bytes from_le_bytes
to_le_bytes-from_le_bytes low high l h =
    let first : (low + 256 * high) % 256 ≡ low = omega arith in
    let second : (low + 256 * high) / 256 % 256 ≡ high = omega arith in
    ground (arith, first, second)

-- A decoded value is the one that has the decoded bytes.
pub decode_value_one :
    (t : MetakonType) (b : ℕ) (v : MetakonValue)
    → decode_value t (b ∷ []) ≡ ok v
    → b < 256
    → (value_type v ≡ t) × (append_data v ≡ b ∷ []) × (width t ≡ 1)
unfolding decode_value decode_bool value_type append_data width
decode_value_one MetakonType.bool b v h small = (ground arith, ground arith, refl)
decode_value_one MetakonType.u8 b v h small = (ground arith, ground arith, refl)
decode_value_one MetakonType.i8 b v h small =
    (ground arith, ground (arith, to_unsigned-to_signed b small), refl)
decode_value_one MetakonType.u16 b v h small = ground arith
decode_value_one MetakonType.i16 b v h small = ground arith

pub decode_value_two :
    (t : MetakonType) (low high : ℕ) (v : MetakonValue)
    → decode_value t (low ∷ high ∷ []) ≡ ok v
    → low < 256
    → high < 256
    → (value_type v ≡ t) × (append_data v ≡ low ∷ high ∷ [])
unfolding decode_value value_type append_data from_le_bytes
decode_value_two MetakonType.bool low high v h l k = ground arith
decode_value_two MetakonType.u8 low high v h l k = ground arith
decode_value_two MetakonType.i8 low high v h l k = ground arith
decode_value_two MetakonType.u16 low high v h l k =
    (ground arith, ground (arith, to_le_bytes-from_le_bytes low high l k))
decode_value_two MetakonType.i16 low high v h l k = (
  ground arith,
  ground (
    arith,
    to_le_bytes-from_le_bytes low high l k,
    to_unsigned-to_signed_16 (low + 256 * high) (omega arith),
  ),
)

pub width_cases : (t : MetakonType) → (width t ≡ 1) ⊎ (width t ≡ 2)
unfolding width
width_cases t = ground arith
