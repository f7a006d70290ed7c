-- ===== src/Metakon/Acceptance.antt =====
-- crates/lab-core/src/metakon.rs: the decoders accept the canonical frames and no others.
use lab_runtime.Base.{
  ℕ, ◌<◌, ◌≡◌, ap, ◌∙◌, subst, true, List, [], ◌∷◌, ◌++◌, u64_eq, length, length-append, ok, arith,
  Every,
}
use lab_runtime.Metakon.Codec.{
  MetakonValue, ExpectedRead, value_type, append_data, frame_len, crc, finish_crc,
  validate_bound_and_crc, header_is, flags_are, data_bytes, expected_flags, decode_value,
  decode_read,
}
use lab_runtime.Metakon.Frames.{
  response, finish_crc-validate, decode_value_one, decode_value_two, width_cases,
}

-- What `decode_read` has tested.
pub record Checked (bytes : List ℕ) (e : ExpectedRead) (v : MetakonValue) : Type 0 where
  pub size : length bytes ≡ frame_len e
  pub sealed : validate_bound_and_crc bytes ≡ ok tt
  pub header : header_is e.address 0 bytes ≡ true
  pub flags : flags_are (expected_flags e) bytes ≡ true
  pub decoded : decode_value e.value_type (data_bytes bytes) ≡ ok v

pub decode_read-Checked :
    (bytes : List ℕ) (e : ExpectedRead) (v : MetakonValue)
    → decode_read bytes e ≡ ok v
    → Checked bytes e v
unfolding decode_read
decode_read-Checked bytes e v h = record {
  size = ground arith;
  sealed = ground arith;
  header = ground arith;
  flags = ground arith;
  decoded = ground arith;
}

pub frame_len_short : (e : ExpectedRead) → (6 < frame_len e) × (frame_len e < 9)
unfolding frame_len
frame_len_short e = ground (arith, width_cases e.value_type)

pub Checked-decode_read :
    (bytes : List ℕ) (e : ExpectedRead) (v : MetakonValue)
    → Checked bytes e v
    → decode_read bytes e ≡ ok v
unfolding decode_read
Checked-decode_read bytes e v c =
    ground (arith, c.size, frame_len_short e, c.sealed, c.header, c.flags, c.decoded)

too_long :
    (bytes : List ℕ) (e : ExpectedRead) {A : Type 0}
    → length bytes ≡ frame_len e
    → 8 < length bytes
    → A
too_long bytes e size long = absurd (omega (arith, size, long, frame_len_short e))

too_short :
    (bytes : List ℕ) (e : ExpectedRead) {A : Type 0}
    → length bytes ≡ frame_len e
    → length bytes < 7
    → A
too_short bytes e size short = absurd (omega (arith, size, short, frame_len_short e))

header_bytes :
    (e : ExpectedRead) (a b c d f : ℕ) (rest : List ℕ)
    → header_is e.address 0 (a ∷ b ∷ c ∷ d ∷ f ∷ rest) ≡ true
    → flags_are (expected_flags e) (a ∷ b ∷ c ∷ d ∷ f ∷ rest) ≡ true
    → (xs : List ℕ)
    → a ∷ b ∷ c ∷ d ∷ f ∷ xs
      ≡ e.address.device ∷ e.address.channel ∷ e.address.register ∷ 0 ∷ expected_flags e ∷ xs
unfolding header_is flags_are
header_bytes e a b c d f rest h flags xs = ground arith

-- The body of an accepted frame.
decode_body :
    (body : List ℕ) (e : ExpectedRead) (v : MetakonValue)
    → Checked (finish_crc body) e v
    → Every (λ b. b < 256) body
    → (value_type v ≡ e.value_type)
      × (body
          ≡ (e.address.device ∷ e.address.channel ∷ e.address.register ∷ 0 ∷ expected_flags e ∷ [])
            ++ append_data v)
unfolding finish_crc header_is flags_are data_bytes
decode_body [] e v h small = too_short (finish_crc []) e h.size (omega arith)
decode_body (a ∷ []) e v h small = too_short (finish_crc (a ∷ [])) e h.size (omega arith)
decode_body (a ∷ b ∷ []) e v h small = too_short (finish_crc (a ∷ b ∷ [])) e h.size (omega arith)
decode_body (a ∷ b ∷ c ∷ []) e v h small =
    too_short (finish_crc (a ∷ b ∷ c ∷ [])) e h.size (omega arith)
decode_body (a ∷ b ∷ c ∷ d ∷ []) e v h small =
    too_short (finish_crc (a ∷ b ∷ c ∷ d ∷ [])) e h.size (omega arith)
decode_body (a ∷ b ∷ c ∷ d ∷ f ∷ []) e v h small =
    too_short (finish_crc (a ∷ b ∷ c ∷ d ∷ f ∷ [])) e h.size (omega arith)
decode_body (a ∷ b ∷ c ∷ d ∷ f ∷ x ∷ []) e v h small =
    let (kind, bytes, one) = decode_value_one e.value_type x v h.decoded small.1.1.1.1.1.0 in
    let header =
      header_bytes e a b c d f (x ∷ crc (a ∷ b ∷ c ∷ d ∷ f ∷ x ∷ []) ∷ []) h.header h.flags in
    (kind, rw bytes (header (x ∷ [])))
decode_body (a ∷ b ∷ c ∷ d ∷ f ∷ x ∷ y ∷ []) e v h small =
    let (kind, bytes) =
      decode_value_two e.value_type x y v h.decoded small.1.1.1.1.1.0 small.1.1.1.1.1.1.0 in
    let header =
      header_bytes e a b c d f (x ∷ y ∷ crc (a ∷ b ∷ c ∷ d ∷ f ∷ x ∷ y ∷ []) ∷ []) h.header
        h.flags in
    (kind, rw bytes (header (x ∷ y ∷ [])))
decode_body (a ∷ b ∷ c ∷ d ∷ f ∷ x ∷ y ∷ z ∷ rest) e v h small =
    too_long (finish_crc (a ∷ b ∷ c ∷ d ∷ f ∷ x ∷ y ∷ z ∷ rest)) e h.size
      (omega (arith, length-append rest (crc (a ∷ b ∷ c ∷ d ∷ f ∷ x ∷ y ∷ z ∷ rest) ∷ [])))

Every-front : (xs ys : List ℕ) → Every (λ b. b < 256) (xs ++ ys) → Every (λ b. b < 256) xs
Every-front [] ys each = tt
Every-front (x ∷ xs) ys each = (each.0, Every-front xs ys each.1)

pub accepted_frame :
    (bytes : List ℕ) (e : ExpectedRead) (v : MetakonValue)
    → Every (λ b. b < 256) bytes
    → Checked bytes e v
    → (value_type v ≡ e.value_type) × (bytes ≡ response e v)
unfolding response finish_crc
accepted_frame bytes e v small c =
    let (body, whole) = finish_crc-validate bytes c.sealed in
    let checked : Checked (finish_crc body) e v = subst (λ b. Checked b e v) whole c in
    let inner : Every (λ b. b < 256) (finish_crc body) =
      subst (λ b. Every (λ n. n < 256) b) whole small in
    let (kind, parts) = decode_body body e v checked (Every-front body (crc body ∷ []) inner) in
    (kind, whole ∙ ap finish_crc parts)
