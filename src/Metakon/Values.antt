-- ===== src/Metakon/Values.antt =====
-- crates/lab-core/src/metakon.rs: the data bytes of a value decode to that value.
use lab_runtime.Base.{
  ℕ, ◌+◌, ◌/◌, ◌%◌, ◌<◌, ◌≡◌, ◌↔◌, refl, sym, ap, ◌∙◌, subst, true, false, List, [], ◌∷◌, ◌++◌,
  u64_eq, length, length-append, ok, ℤ, pos, negsuc, arith, Every,
}
use lab_runtime.Metakon.Codec.{
  Address, MetakonValue, ExpectedRead, width, value_type, to_unsigned, to_signed, to_le_bytes,
  from_le_bytes, append_data, frame_len, crc, finish_crc, validate_bound_and_crc, header_is,
  flags_are, data_bytes, expected_flags, decode_bool, decode_value, decode_read, decode_ack,
}
use lab_runtime.Metakon.Frames.{
  response, acknowledgement, Fits, validate-finish_crc, finish_crc-validate, split_last-append,
}
use lab_runtime.Metakon.Acceptance.{
  Checked, decode_read-Checked, Checked-decode_read, accepted_frame, frame_len_short,
}

le_whole : (n : ℕ) → n < 65536 → from_le_bytes (n % 256) (n / 256 % 256) ≡ n
unfolding from_le_bytes
le_whole n h = omega (arith, h)

signed_whole_8 : (n : ℤ) → Fits (MetakonValue.i8 n) → to_signed 256 (to_unsigned 256 n) ≡ n
unfolding Fits to_signed to_unsigned
signed_whole_8 (pos n) h = ground arith
signed_whole_8 (negsuc n) h = ground arith

signed_whole_16 : (n : ℤ) → Fits (MetakonValue.i16 n) → to_signed 65536 (to_unsigned 65536 n) ≡ n
unfolding Fits to_signed to_unsigned
signed_whole_16 (pos n) h = ground arith
signed_whole_16 (negsuc n) h = ground arith

unsigned_small : (n : ℤ) → Fits (MetakonValue.i16 n) → to_unsigned 65536 n < 65536
unfolding Fits to_unsigned
unsigned_small (pos n) h = ground arith
unsigned_small (negsuc n) h = ground arith

pub decode_value-append_data :
    (v : MetakonValue) → Fits v → decode_value (value_type v) (append_data v) ≡ ok v
unfolding decode_value decode_bool append_data value_type Fits to_le_bytes
decode_value-append_data (MetakonValue.bool true) h = refl
decode_value-append_data (MetakonValue.bool false) h = refl
decode_value-append_data (MetakonValue.u8 n) h = refl
decode_value-append_data (MetakonValue.i8 n) h =
    ap (λ (k : ℤ). ok (MetakonValue.i8 k)) (signed_whole_8 n h)
decode_value-append_data (MetakonValue.u16 n) h =
    ap (λ (k : ℕ). ok (MetakonValue.u16 k)) (le_whole n h)
decode_value-append_data (MetakonValue.i16 n) h =
    ap (λ (k : ℕ). ok (MetakonValue.i16 (to_signed 65536 k)))
      (le_whole (to_unsigned 65536 n) (unsigned_small n h))
    ∙ ap (λ (k : ℤ). ok (MetakonValue.i16 k)) (signed_whole_16 n h)

append_data-width : (v : MetakonValue) → length (append_data v) ≡ width (value_type v)
unfolding append_data width value_type to_le_bytes
append_data-width v = ground arith

header_own :
    (a : Address) (f : ℕ) (rest : List ℕ)
    → header_is a f (a.device ∷ a.channel ∷ a.register ∷ f ∷ rest) ≡ true
unfolding header_is
header_own a f rest = ground arith

flags_own : (w x y z n : ℕ) (rest : List ℕ) → flags_are n (w ∷ x ∷ y ∷ z ∷ n ∷ rest) ≡ true
unfolding flags_are
flags_own w x y z n rest = ground arith

response-Checked :
    (e : ExpectedRead) (v : MetakonValue)
    → value_type v ≡ e.value_type
    → Fits v
    → Checked (response e v) e v
unfolding response finish_crc frame_len data_bytes
response-Checked e v kind fits =
    let body =
      (e.address.device ∷ e.address.channel ∷ e.address.register ∷ 0 ∷ expected_flags e ∷ [])
      ++ append_data v in
    let seal = crc body in
    let size : length (append_data v ++ seal ∷ []) ≡ length (append_data v) + 1 =
      length-append (append_data v) (seal ∷ []) in
    let wide : width (value_type v) ≡ width e.value_type = ap width kind in
    let few = frame_len_short e in
    record {
      size = omega (arith, size, append_data-width v, wide);
      sealed = validate-finish_crc body (omega (arith, append_data-width v, wide, few));
      header = header_own e.address 0 (expected_flags e ∷ append_data v ++ seal ∷ []);
      flags =
          flags_own e.address.device e.address.channel e.address.register 0 (expected_flags e)
            (append_data v ++ seal ∷ []);
      decoded =
          rw (data_bytes, split_last-append (append_data v) seal)
            (rw⁻¹ kind (decode_value-append_data v fits));
    }

four_bytes :
    (a : Address) (f : ℕ) (body : List ℕ) (seal : ℕ)
    → length (body ++ seal ∷ []) ≡ 5
    → header_is a f (body ++ seal ∷ []) ≡ true
    → body ≡ a.device ∷ a.channel ∷ a.register ∷ f ∷ []
unfolding header_is
four_bytes a f [] seal size h = ground arith
four_bytes a f (w ∷ []) seal size h = ground arith
four_bytes a f (w ∷ x ∷ []) seal size h = ground arith
four_bytes a f (w ∷ x ∷ y ∷ []) seal size h = ground arith
four_bytes a f (w ∷ x ∷ y ∷ z ∷ []) seal size h = ground arith
four_bytes a f (w ∷ x ∷ y ∷ z ∷ u ∷ rest) seal size h =
    absurd (omega (arith, size, length-append rest (seal ∷ [])))

accepted_ack :
    (bytes : List ℕ) (a : Address) → decode_ack bytes a ≡ ok tt → bytes ≡ acknowledgement a
unfolding decode_ack acknowledgement finish_crc
accepted_ack bytes a h =
    let sealed : validate_bound_and_crc bytes ≡ ok tt = ground arith in
    let size : length bytes ≡ 5 = ground arith in
    let header : header_is a 1 bytes ≡ true = ground arith in
    let (body, whole) = finish_crc-validate bytes sealed in
    let parts : body ≡ a.device ∷ a.channel ∷ a.register ∷ 1 ∷ [] =
      four_bytes a 1 body (crc body) (rw⁻¹ whole size)
        (subst (λ b. header_is a 1 b ≡ true) whole header) in
    whole ∙ ap finish_crc parts

ack_of_facts :
    (bytes : List ℕ) (a : Address)
    → validate_bound_and_crc bytes ≡ ok tt
    → length bytes ≡ 5
    → header_is a 1 bytes ≡ true
    → decode_ack bytes a ≡ ok tt
unfolding decode_ack
ack_of_facts bytes a sealed size header = ground (arith, sealed, size, header)

ack_header : (a : Address) → header_is a 1 (acknowledgement a) ≡ true
unfolding acknowledgement finish_crc
ack_header a = header_own a 1 (crc (a.device ∷ a.channel ∷ a.register ∷ 1 ∷ []) ∷ [])

ack_accepted : (a : Address) → decode_ack (acknowledgement a) a ≡ ok tt
unfolding acknowledgement finish_crc
ack_accepted a =
    let body = a.device ∷ a.channel ∷ a.register ∷ 1 ∷ [] in
    let sealed : validate_bound_and_crc (finish_crc body) ≡ ok tt =
      validate-finish_crc body (omega arith) in
    ack_of_facts (finish_crc body) a sealed refl (ack_header a)

-- Every value of the expected type and in its range, in the frame of the expected read, is decoded
-- to itself.
pub decode_read-response :
    (e : ExpectedRead) (v : MetakonValue)
    → value_type v ≡ e.value_type
    → Fits v
    → decode_read (response e v) e ≡ ok v
decode_read-response e v kind fits =
    Checked-decode_read (response e v) e v (response-Checked e v kind fits)

-- A received frame of bytes is decoded to a value only if the value has the expected type and the frame is,
-- byte for byte, the canonical one: address, function 0, type and access flags, data, checksum.
pub accepts_response_only :
    (bytes : List ℕ) (e : ExpectedRead) (v : MetakonValue)
    → Every (λ b. b < 256) bytes
    → decode_read bytes e ≡ ok v
    → (value_type v ≡ e.value_type) × (bytes ≡ response e v)
accepts_response_only bytes e v small h =
    accepted_frame bytes e v small (decode_read-Checked bytes e v h)

-- An acknowledgement is accepted exactly if it is, byte for byte, the canonical one.
pub decode_ack_exactly :
    (bytes : List ℕ) (a : Address) → (decode_ack bytes a ≡ ok tt) ↔ (bytes ≡ acknowledgement a)
decode_ack_exactly bytes a =
    (accepted_ack bytes a, λ h. subst (λ b. decode_ack b a ≡ ok tt) (sym h) (ack_accepted a))
