-- ===== src/Metakon/Requests.antt =====
-- crates/lab-core/src/metakon.rs: a write request determines its address and its value.
use lab_runtime.Base.{
  ℕ, ◌≡◌, sym, ap, ◌∙◌, Option, some, List, [], ◌∷◌, ◌++◌, u64_eq, Result, ok, arith,
}
use lab_runtime.Metakon.Codec.{
  Address, MetakonType, MetakonValue, CodecError, code, value_type, append_data, crc, finish_crc,
  split_last, decode_value, encode_write,
}
use lab_runtime.Metakon.Frames.{Fits, split_last-append}
use lab_runtime.Metakon.Values.{decode_value-append_data}

second :
    (a b : ℕ) (xs ys : List ℕ)
    → ◌≡◌ {A = Option (ℕ × List ℕ)} (some (a, xs)) (some (b, ys))
    → xs ≡ ys
second a b xs ys h = ground arith

same_ok : {A : Type 0} (v w : A) → ◌≡◌ {A = Result CodecError A} (ok v) (ok w) → v ≡ w
same_ok v w h = ground arith

finish_crc-injective : (xs ys : List ℕ) → finish_crc xs ≡ finish_crc ys → xs ≡ ys
unfolding finish_crc
finish_crc-injective xs ys h =
    second (crc xs) (crc ys) xs ys
      (sym (split_last-append xs (crc xs)) ∙ ap split_last h ∙ split_last-append ys (crc ys))

code-injective : (s t : MetakonType) → code s ≡ code t → s ≡ t
unfolding code
code-injective s t h = ground arith

same_body :
    (a b : Address) (v w : MetakonValue)
    → encode_write a v ≡ encode_write b w
    → (a.device ∷ a.channel ∷ a.register ∷ 1 ∷ code (value_type v) ∷ []) ++ append_data v
      ≡ (b.device ∷ b.channel ∷ b.register ∷ 1 ∷ code (value_type w) ∷ []) ++ append_data w
unfolding encode_write
same_body a b v w h = finish_crc-injective _ _ (same_ok _ _ h)

-- Write requests of different addresses, or of different values in the range of their types, are
-- different frames.
pub encode_write-injective :
    (a b : Address) (v w : MetakonValue)
    → Fits v
    → Fits w
    → encode_write a v ≡ encode_write b w
    → (a ≡ b) × (v ≡ w)
encode_write-injective a b v w fits_v fits_w h =
    let body = same_body a b v w h in
    let kind : value_type v ≡ value_type w =
      code-injective (value_type v) (value_type w) (cc (body)) in
    let bytes : append_data v ≡ append_data w = cc (body) in
    let back : ◌≡◌ {A = Result CodecError MetakonValue} (ok v) (ok w) =
      sym (decode_value-append_data v fits_v)
      ∙ ap (λ t. decode_value t (append_data v)) kind
      ∙ ap (decode_value (value_type w)) bytes
      ∙ decode_value-append_data w fits_w in
    (cc (body), same_ok v w back)
