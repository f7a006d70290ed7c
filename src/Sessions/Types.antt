-- ===== src/Sessions/Types.antt =====
-- apps/lab-runtime/src/sessions.rs: the limits, operation states, admissions and the records of the
-- store. A text is the list of its UTF-8 bytes; times are nanoseconds.
use lab_runtime.Base.{ℕ, ◌≡◌, Bool, true, false, ◌&&◌, Option, List, [], ◌∷◌, ◌==◌, u64_eq}

abbrev pub Text : Type 0
Text = List ℕ

unfoldable pub text_is : Text → Text → Bool
text_is [] [] = true
text_is [] (y ∷ ys) = false
text_is (x ∷ xs) [] = false
text_is (x ∷ xs) (y ∷ ys) = x == y && text_is xs ys

abbrev pub max_scopes : ℕ
max_scopes = 16

abbrev pub max_pending : ℕ
max_pending = 64

abbrev pub max_terminal : ℕ
max_terminal = 256

abbrev pub provisioning_retained_bytes : ℕ
provisioning_retained_bytes = 524288

abbrev pub provisioning_structural_allowance : ℕ
provisioning_structural_allowance = 8192

abbrev pub max_pending_scope : ℕ
max_pending_scope = 8

abbrev pub max_terminal_scope : ℕ
max_terminal_scope = 32

-- 600 s and 1800 s.
abbrev pub terminal_ttl : ℕ
terminal_ttl = 600000000000

abbrev pub idle_scope_ttl : ℕ
idle_scope_ttl = 1800000000000

abbrev pub outcome_size_limit : ℕ
outcome_size_limit = 4096

pub data OperationState : Type 0 where
  accepted : OperationState
  completed failed : Text → OperationState
  failed_with_result : Text → Text → OperationState

unfoldable pub terminal : OperationState → Bool
terminal OperationState.accepted = false
terminal _ = true

pub data Admission : Type 0 where
  accepted : Admission
  known : OperationState → Admission
  conflict unknown gap busy scope_unknown : Admission

pub data SessionError : Type 0 where
  invalid_boot scope_capacity scope_unknown instance_changed scope_in_use : SessionError
  counter_exhausted invalid_outcome : SessionError

pub record OpenScope : Type 0 where
  pub scope : Text
  pub next_seq : ℕ

-- What the store needs of a mutation. Equality is the payload's derived PartialEq, which need not
-- be reflexive (NaN); a normalized payload is normalized again to itself.
pub record Payload (M : Type 0) : Type 0 where
  pub normalized : M → M
  pub same : M → M → Bool
  pub charge : M → ℕ
  pub normalized_idem : (m : M) → normalized (normalized m) ≡ normalized m

pub record Entry (M : Type 0) : Type 0 where
  pub seq : ℕ
  pub payload : M
  pub state : OperationState
  pub terminal_at : Option ℕ
  pub provisioning_charge : ℕ

pub record Scope (M : Type 0) : Type 0 where
  pub attached : Option ℕ
  pub high_water : ℕ
  pub last_active : ℕ
  pub records : List (Entry M)

-- The scopes in the order of their identities.
pub record SessionStore (M : Type 0) : Type 0 where
  pub boot_id : Text
  pub next_scope : ℕ
  pub scopes : List (Text × Scope M)
  pub retained_provisioning_bytes : ℕ
