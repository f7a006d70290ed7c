-- ===== src/Reference/Revisions.antt =====
-- crates/lab-core/src/reference.rs: what a retune changes, and that a revision is used once.
use lab_runtime.Base.{
  ℕ, ◌+◌, ◌≤◌, ◌≡◌, ◌≢◌, ◌⊎◌, inl, inr, refl, ap, ◌∙◌, not, none, some, List, [], ◌∷◌, F64, Result,
  ok, err, and_then, arith, Bool-cases, Result-cases, checked_add, ◌==◌, u64_eq,
}
use lab_runtime.Reference.Ramp.{
  ReferenceError, ReferenceValue, RampSnapshot, validate_ramp, candidate_at, move_to, ramp_value_at,
  turn_to, retune_ramp,
}
use lab_runtime.Reference.Runtime.{
  RuntimeReference, ReferenceConfig, RetunedRamp, revision_of, id_of, set_revision, replacement,
  replace_by, reconfigure, with_fixed, with_ramp, value_at, retuned, retune_at, retune,
}
use lab_runtime.Reference.Trajectory.{ReferenceCall, call, calls, Replaced, replacement-Replaced}

-- A successful retune of `r` at `at`: the ramp goes on from the value that an evaluation at `at` would
-- have told, with the new target and rate and the next revision.
pub record Retuned (target rate : F64) (expected at : ℕ) (r : RuntimeReference) (t : RetunedRamp)
    (r' : RuntimeReference) : Type 0 where
  pub value : ReferenceValue
  pub continuous : (value_at at r).0 ≡ ok value
  pub current : t.state.current ≡ value.value
  pub turned : (t.state.target ≡ target) × (t.state.rate ≡ rate) × (t.state.last_at ≡ at)
  pub expected_revision : revision_of r ≡ expected
  pub next : t.revision ≡ expected + 1
  pub kept : r' ≡ RuntimeReference.ramp_target (id_of r) t.state t.revision

-- An error leaves the reference as it was.
unfoldable pub Retuning :
    F64
    → F64
    → ℕ
    → ℕ
    → RuntimeReference
    → Result ReferenceError RetunedRamp × RuntimeReference
    → Type 0
Retuning target rate expected at r (ok t, r') = Retuned target rate expected at r t r'
Retuning target rate expected at r (err e, r') = r' ≡ r

checked_next : (n : ℕ) → (checked_add n 1 ≡ none) ⊎ (checked_add n 1 ≡ some (n + 1))
unfolding checked_add
checked_next n = ground arith

ramp-Retuning :
    (target rate : F64) (expected at id n : ℕ) (s : RampSnapshot)
    → n ≡ expected
    → Retuning target rate expected at
        (RuntimeReference.ramp_target id s n)
        (retuned id n (n + 1) (retune_ramp target rate at s))
unfolding Retuning retuned retune_ramp turn_to value_at with_ramp ramp_value_at move_to revision_of
    id_of
ramp-Retuning target rate expected at id n s same =
    elim (Result-cases (validate_ramp s.current target rate)) [
      | inl (u, v) ↦ elim (Result-cases (candidate_at at s)) [
        | inl (x, k) ↦
            rw (v, k)
              (record {
                value = record { value = x; unit = s.unit; at = at };
                continuous = rw k refl;
                current = refl;
                turned = (refl, refl, refl);
                expected_revision = same;
                next = ap (λ m. m + 1) same;
                kept = refl;
              })
        | inr (b, k) ↦ rw (v, k) refl
      ]
      | inr (b, v) ↦ rw v refl
    ]

-- A retune goes on from the value on the old trajectory, with the new target, rate and revision, or
-- is refused and changes nothing.
pub retune-Retuning :
    (target rate : F64) (expected at : ℕ) (r : RuntimeReference)
    → Retuning target rate expected at r (retune target rate expected at r)
unfolding Retuning retune retune_at
retune-Retuning target rate expected at (RuntimeReference.fixed_target id r n) = refl
retune-Retuning target rate expected at (RuntimeReference.ramp_target id s n) =
    elim (Bool-cases (not (n == expected))) [
      | inl h ↦ rw h refl
      | inr h ↦ rw h (elim (checked_next n) [
        | inl e ↦ rw e refl
        | inr e ↦ rw e (ramp-Retuning target rate expected at id n s (ground (arith, h)))
      ])
    ]

-- A successful replacement has the next revision.
revision_of-set_revision : (k : ℕ) (r : RuntimeReference) → revision_of (set_revision k r) ≡ k
unfolding revision_of set_revision
revision_of-set_revision k (RuntimeReference.fixed_target id r n) = refl
revision_of-set_revision k (RuntimeReference.ramp_target id s n) = refl

-- The two operations that change a configuration, both with the revision that they expect.
pub data Change : Type 0 where
  retuning : F64 → F64 → ℕ → Change
  replacing : ReferenceConfig → Change

-- Whether the change is made at revision `expected`, and the reference after it.
unfoldable pub apply_change :
    Change → ℕ → RuntimeReference → Result ReferenceError (Unit {0}) × RuntimeReference
apply_change (Change.retuning target rate at) expected r =
    let t = retune target rate expected at r in (and_then t.0 (λ _. ok tt), t.1)
apply_change (Change.replacing c) expected r =
    let t = reconfigure c expected r in (and_then t.0 (λ _. ok tt), t.1)

-- A change is made at the expected revision only, and moves to the next one; else nothing changes.
unfoldable pub Changing :
    ℕ → RuntimeReference → Result ReferenceError (Unit {0}) × RuntimeReference → Type 0
Changing expected r (ok u, r') = (revision_of r ≡ expected) × (revision_of r' ≡ expected + 1)
Changing expected r (err e, r') = r' ≡ r

retuned-Changing :
    (target rate : F64) (expected at : ℕ) (r : RuntimeReference)
    (t : Result ReferenceError RetunedRamp × RuntimeReference)
    → Retuning target rate expected at r t
    → Changing expected r (and_then t.0 (λ _. ok tt), t.1)
unfolding Retuning Changing revision_of
retuned-Changing target rate expected at r (ok t, r') told =
    (told.expected_revision, ap revision_of told.kept ∙ told.next)
retuned-Changing target rate expected at r (err e, r') told = told

replace_by-Changing :
    (c : ReferenceConfig) (expected : ℕ) (r : RuntimeReference)
    (x : Result ReferenceError RuntimeReference)
    → ((r' : RuntimeReference) → x ≡ ok r' → Replaced c expected r r')
    → Changing expected r (let t = replace_by x r in (and_then t.0 (λ _. ok tt), t.1))
unfolding replace_by Changing
replace_by-Changing c expected r (ok r') each =
    let p = each r' refl in
    (p.expected_revision, ap revision_of p.result ∙ revision_of-set_revision (expected + 1) p.made)
replace_by-Changing c expected r (err e) each = refl

apply_change-Changing :
    (ch : Change) (expected : ℕ) (r : RuntimeReference)
    → Changing expected r (apply_change ch expected r)
unfolding apply_change reconfigure
apply_change-Changing (Change.retuning target rate at) expected r =
    retuned-Changing target rate expected at r (retune target rate expected at r)
      (retune-Retuning target rate expected at r)
apply_change-Changing (Change.replacing c) expected r =
    replace_by-Changing c expected r (replacement c expected r) (replacement-Replaced c expected r)

changed_more :
    (expected : ℕ) (r : RuntimeReference) (x : Result ReferenceError (Unit {0}) × RuntimeReference)
    → Changing expected r x
    → revision_of r ≤ revision_of x.1
unfolding Changing
changed_more expected r (ok u, r') (before, after) = omega (arith, before, after)
changed_more expected r (err e, r') same = rw same (omega arith)

evaluated_same : (at : ℕ) (r : RuntimeReference) → revision_of (value_at at r).1 ≡ revision_of r
unfolding value_at with_fixed with_ramp revision_of
evaluated_same at (RuntimeReference.fixed_target id r n) = refl
evaluated_same at (RuntimeReference.ramp_target id s n) = refl

call_more : (c : ReferenceCall) (r : RuntimeReference) → revision_of r ≤ revision_of (call c r)
unfolding call apply_change
call_more (ReferenceCall.evaluated at) r = omega (arith, evaluated_same at r)
call_more (ReferenceCall.retuned_to target rate expected at) r =
    changed_more expected r _ (apply_change-Changing (Change.retuning target rate at) expected r)
call_more (ReferenceCall.reconfigured c expected) r =
    changed_more expected r _ (apply_change-Changing (Change.replacing c) expected r)

pub calls_more :
    (cs : List ReferenceCall) (r : RuntimeReference) → revision_of r ≤ revision_of (calls cs r)
unfolding calls
calls_more [] r = omega arith
calls_more (c ∷ cs) r = omega (arith, call_more c r, calls_more cs (call c r))

refused_or_current :
    (expected : ℕ) (r : RuntimeReference) (x : Result ReferenceError (Unit {0}) × RuntimeReference)
    → Changing expected r x
    → revision_of r ≢ expected
    → ((e : ReferenceError) × (x.0 ≡ err e)) × (x.1 ≡ r)
unfolding Changing
refused_or_current expected r (ok u, r') told old = absurd (old told.0)
refused_or_current expected r (err e, r') told old = ((e, refl), told)

changed_to :
    (expected : ℕ) (r : RuntimeReference) (x : Result ReferenceError (Unit {0}) × RuntimeReference)
    → Changing expected r x
    → x.0 ≡ ok tt
    → revision_of x.1 ≡ expected + 1
unfolding Changing
changed_to expected r (ok u, r') told done = told.1
changed_to expected r (err e, r') told done = absurd (ground arith)

-- Once a change at a revision is made, every later change that expects that revision is refused and
-- changes nothing, whatever calls lie between.
pub revision_used_once :
    (r : RuntimeReference) (expected : ℕ) (one other : Change) (cs : List ReferenceCall)
    → (apply_change one expected r).0 ≡ ok tt
    → let now = calls cs (apply_change one expected r).1 in
      ((e : ReferenceError) × ((apply_change other expected now).0 ≡ err e))
      × ((apply_change other expected now).1 ≡ now)
revision_used_once r expected one other cs done =
    refused_or_current expected now (apply_change other expected now)
      (apply_change-Changing other expected now)
      (ground (
        arith,
        calls_more cs (apply_change one expected r).1,
        changed_to expected r (apply_change one expected r) (apply_change-Changing one expected r)
            done,
      ))
  where
    now : RuntimeReference
    now = calls cs (apply_change one expected r).1
