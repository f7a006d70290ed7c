-- ===== src/Sessions/ScopeId.antt =====
-- apps/lab-runtime/src/sessions.rs: boot identities and `format!("{}:{}", boot_id, counter)`, with
-- the decimal text of a counter. Different counters have different texts.
use lab_runtime.Base.{
  ℕ, zero, suc, ◌+◌, ◌-◌, ◌*◌, ◌/◌, ◌%◌, ◌<◌, ◌≡◌, ap, sym, ◌∙◌, Bool, true, ◌&&◌, ◌||◌, Option,
  none, some, [], ◌∷◌, ◌++◌, inl, inr, Bool-cases, ltb, leb, ◌==◌, u64_eq, if◌then◌else◌, length,
  arith,
}
use lab_runtime.Sessions.Types.{Text}

-- The digits of `n` before `acc`. The fuel bounds the number of digits.
unfoldable pub digits : ℕ → ℕ → Text → Text
digits zero n acc = acc
digits (suc f) n acc =
    let rest = digits f (n / 10) ((48 + n % 10) ∷ acc) in if ltb n 10 then (48 + n) ∷ acc else rest

unfoldable pub decimal : ℕ → Text
unfolding digits
decimal n = digits (suc n) n []

unfoldable pub scope_key : Text → ℕ → Text
unfolding decimal
scope_key boot n = boot ++ 58 ∷ decimal n

-- 32 lower-case hexadecimal digits.
unfoldable pub is_hex : ℕ → Bool
is_hex b = leb 48 b && leb b 57 || leb 97 b && leb b 102

unfoldable pub all_hex : Text → Bool
unfolding is_hex
all_hex [] = true
all_hex (b ∷ bs) = is_hex b && all_hex bs

unfoldable pub boot_valid : Text → Bool
unfolding all_hex
boot_valid boot = length boot == 32 && all_hex boot

-- The text before the first colon, if there is one: the first half of `split_once(':')`.
unfoldable pub boot_of : Text → Option Text
boot_of [] = none
boot_of (b ∷ bs) =
    let rest = boot_of bs in
    if b == 58 then some [] else elim rest [ none ↦ none | some t ↦ some (b ∷ t) ]

decode : ℕ → Text → ℕ
decode v [] = v
decode v (d ∷ ds) = decode (v * 10 + (d - 48)) ds

decode-digits : (f n : ℕ) (acc : Text) → n < f → decode 0 (digits f n acc) ≡ decode n acc
unfolding decode digits
decode-digits zero n acc h = elim h [ ]
decode-digits (suc f) n acc h = elim (Bool-cases (ltb n 10)) [
  | inl last ↦ rw last (ap (λ (v : ℕ). decode v acc) (omega arith))
  | inr more ↦ rw more (
      decode-digits f (n / 10) ((48 + n % 10) ∷ acc) (ground arith)
      ∙ ap (λ (v : ℕ). decode v acc) (omega arith))
]

decode-decimal : (n : ℕ) → decode 0 (decimal n) ≡ n
unfolding decode decimal
decode-decimal n = decode-digits (suc n) n [] (omega arith)

append-cancel : (p xs ys : Text) → p ++ xs ≡ p ++ ys → xs ≡ ys
append-cancel [] xs ys h = h
append-cancel (b ∷ p) xs ys h = append-cancel p xs ys (cc)

-- A scope identity determines its counter.
pub scope_key-injective : (boot : Text) (m n : ℕ) → scope_key boot m ≡ scope_key boot n → m ≡ n
unfolding scope_key
scope_key-injective boot m n h =
    let same : decimal m ≡ decimal n =
      cc (append-cancel boot (58 ∷ decimal m) (58 ∷ decimal n) h) in
    sym (decode-decimal m) ∙ ap (decode 0) same ∙ decode-decimal n
