-- ===== src/Reference/Trajectory.antt =====
-- crates/lab-core/src/reference.rs: values stay finite and in time order, whatever the calls.
use lab_runtime.Base.{
  ℕ, ◌+◌, ◌-◌, ◌≤◌, ◌≡◌, inl, inr, refl, sym, subst, true, false, ◌||◌, not, Option, none, some,
  List, [], ◌∷◌, F64, is_finite, f64_lt, f64_zero, Result, ok, err, and_then, arith, Bool-cases,
  Result-cases, passed, OnSome, ltb, checked_add, f64_add, ◌==◌, u64_eq, ok_or,
}
use lab_runtime.Reference.Ramp.{
  ReferenceError, ReferenceValue, FixedReference, RampSnapshot, new_fixed, new_ramp, make_ramp,
  validate_ramp, precedes, fixed_value_at, ramp_step, candidate_at, move_to, ramp_value_at, turn_to,
  retune_ramp,
}
use lab_runtime.Reference.Runtime.{
  RuntimeReference, ReferenceConfig, make_reference, reference_unit, revision_of, id_of, config_id,
  set_revision, replacement, replace_by, reconfigure, with_fixed, with_ramp, value_at, retuned,
  retune_at, retune,
}

unfoldable pub last_time : RuntimeReference → Option ℕ
last_time (RuntimeReference.fixed_target id r n) = r.last_at
last_time (RuntimeReference.ramp_target id s n) = some s.last_at

pub record GoodRamp (s : RampSnapshot) : Type 0 where
  pub current_finite : is_finite s.current ≡ true
  pub target_finite : is_finite s.target ≡ true
  pub rate_finite : is_finite s.rate ≡ true
  pub rate_positive : f64_lt f64_zero s.rate ≡ true

unfoldable pub Good : RuntimeReference → Type 0
Good (RuntimeReference.fixed_target id r n) = is_finite r.value ≡ true
Good (RuntimeReference.ramp_target id s n) = GoodRamp s

pub data ReferenceCall : Type 0 where
  evaluated : ℕ → ReferenceCall
  retuned_to : F64 → F64 → ℕ → ℕ → ReferenceCall
  reconfigured : ReferenceConfig → ℕ → ReferenceCall

unfoldable pub call : ReferenceCall → RuntimeReference → RuntimeReference
call (ReferenceCall.evaluated at) r = (value_at at r).1
call (ReferenceCall.retuned_to target rate expected at) r = (retune target rate expected at r).1
call (ReferenceCall.reconfigured c expected) r = (reconfigure c expected r).1

unfoldable pub calls : List ReferenceCall → RuntimeReference → RuntimeReference
unfolding call
calls [] r = r
calls (c ∷ cs) r = calls cs (call c r)

candidate_finite :
    (at : ℕ) (s : RampSnapshot) (x : F64)
    → candidate_at at s ≡ ok x
    → (is_finite x ≡ true) × (s.last_at ≤ at)
unfolding candidate_at
candidate_finite at s x h = elim (Bool-cases (ltb at s.last_at)) [
  | inl e ↦ absurd (let h' = rw e at h in ground (arith, h'))
  | inr e ↦
      let h' = rw e at h in
      elim (Bool-cases (is_finite (f64_add s.current (ramp_step s (at - s.last_at))))) [
        | inl f ↦ let g = rw f at h' in ground (arith, g, f, e)
        | inr f ↦ absurd (let g = rw f at h' in ground (arith, g))
      ]
]

validate_passed :
    (start target rate : F64) (u : Unit {0})
    → validate_ramp start target rate ≡ ok u
    → (is_finite start ≡ true)
      × (is_finite target ≡ true)
      × (is_finite rate ≡ true)
      × (f64_lt f64_zero rate ≡ true)
unfolding validate_ramp
validate_passed start target rate u h = ground arith

-- A value that is told is finite, of the reference's unit and of the time asked for, which is not
-- before the last one.
pub record Told (r : RuntimeReference) (at : ℕ) (v : ReferenceValue) (r' : RuntimeReference)
    : Type 0 where
  pub finite : is_finite v.value ≡ true
  pub instant : v.at ≡ at
  pub unit : v.unit ≡ reference_unit r
  pub ordered : OnSome (λ t. t ≤ at) (last_time r)
  pub moved : last_time r' ≡ some at
  pub revision : revision_of r' ≡ revision_of r

-- An error leaves the reference as it was.
unfoldable pub Evaluation :
    RuntimeReference → ℕ → Result ReferenceError ReferenceValue × RuntimeReference → Type 0
Evaluation r at (ok v, r') = Told r at v r' × Good r'
Evaluation r at (err e, r') = r' ≡ r

fixed-Evaluation :
    (at id n : ℕ) (r : FixedReference)
    → is_finite r.value ≡ true
    → Evaluation (RuntimeReference.fixed_target id r n) at (with_fixed id n (fixed_value_at at r))
unfolding Evaluation Good with_fixed fixed_value_at precedes reference_unit last_time revision_of
fixed-Evaluation at id n r good = elim (Bool-cases (precedes at r.last_at)) [
  | inl h ↦ rw h refl
  | inr h ↦ rw h (
    record {
      finite = good;
      instant = refl;
      unit = refl;
      ordered = in_order r.last_at h;
      moved = refl;
      revision = refl;
    },
    good,
  )
]
  where
    in_order : (t : Option ℕ) → precedes at t ≡ false → OnSome (λ b. b ≤ at) t
    in_order none h = tt
    in_order (some t) h = ground arith

ramp-Evaluation :
    (at id n : ℕ) (s : RampSnapshot)
    → GoodRamp s
    → Evaluation (RuntimeReference.ramp_target id s n) at (with_ramp id n (ramp_value_at at s))
unfolding Evaluation Good with_ramp ramp_value_at move_to reference_unit last_time revision_of
ramp-Evaluation at id n s good = elim (Result-cases (candidate_at at s)) [
  | inl (x, h) ↦
      let (fin, order) = candidate_finite at s x h in
      rw h (
        record {
          finite = fin;
          instant = refl;
          unit = refl;
          ordered = order;
          moved = refl;
          revision = refl;
        },
        record {
          current_finite = fin;
          target_finite = good.target_finite;
          rate_finite = good.rate_finite;
          rate_positive = good.rate_positive;
        },
      )
  | inr (e, h) ↦ rw h refl
]

pub value_at-Evaluation : (at : ℕ) (r : RuntimeReference) → Good r → Evaluation r at (value_at at r)
unfolding Good value_at
value_at-Evaluation at (RuntimeReference.fixed_target id r n) good = fixed-Evaluation at id n r good
value_at-Evaluation at (RuntimeReference.ramp_target id s n) good = ramp-Evaluation at id n s good

evaluated-Good :
    (r : RuntimeReference) (at : ℕ) (e : Result ReferenceError ReferenceValue × RuntimeReference)
    → Good r
    → Evaluation r at e
    → Good e.1
unfolding Evaluation
evaluated-Good r at (ok v, r') good told = told.1
evaluated-Good r at (err e, r') good same = subst Good (sym same) good

-- A new trajectory, once validated, is a good one.
turned-GoodRamp :
    (s : RampSnapshot) (target rate : F64) (at : ℕ)
    → GoodRamp s
    → GoodRamp (retune_ramp target rate at s).1
unfolding retune_ramp turn_to
turned-GoodRamp s target rate at good = elim (Result-cases (validate_ramp s.current target rate)) [
  | inl (u, v) ↦ elim (Result-cases (candidate_at at s)) [
    | inl (x, h) ↦
        let (_, fine, finite_rate, positive) = validate_passed s.current target rate u v in
        rw (v, h)
          (record {
            current_finite = (candidate_finite at s x h).0;
            target_finite = fine;
            rate_finite = finite_rate;
            rate_positive = positive;
          })
    | inr (e, h) ↦ rw (v, h) good
  ]
  | inr (e, v) ↦ rw v good
]

retuned-Good :
    (id n next : ℕ) (t : Result ReferenceError (Unit {0}) × RampSnapshot)
    → GoodRamp t.1
    → Good (retuned id n next t).1
unfolding retuned Good
retuned-Good id n next (ok done, s) good = good
retuned-Good id n next (err e, s) good = good

retune_at-Good :
    (o : Option ℕ) (target rate : F64) (at id n : ℕ) (s : RampSnapshot)
    → GoodRamp s
    → Good (retune_at o target rate at id s n).1
unfolding retune_at Good
retune_at-Good none target rate at id n s good = good
retune_at-Good (some next) target rate at id n s good =
    retuned-Good id n next (retune_ramp target rate at s) (turned-GoodRamp s target rate at good)

retune-Good :
    (target rate : F64) (expected at : ℕ) (r : RuntimeReference)
    → Good r
    → Good (retune target rate expected at r).1
unfolding retune Good
retune-Good target rate expected at (RuntimeReference.fixed_target id r n) good = good
retune-Good target rate expected at (RuntimeReference.ramp_target id s n) good =
    elim (Bool-cases (not (n == expected))) [
      | inl h ↦ rw h good
      | inr h ↦ rw h (retune_at-Good (checked_add n 1) target rate at id n s good)
    ]

pub make_reference-Good :
    (c : ReferenceConfig) (r : RuntimeReference) → make_reference c ≡ ok r → Good r
unfolding make_reference new_fixed new_ramp make_ramp validate_ramp Good
make_reference-Good (ReferenceConfig.fixed_config id v u) r h = ground arith
make_reference-Good (ReferenceConfig.ramp_config id start target rate u at) r h =
    elim (Result-cases (validate_ramp start target rate)) [
      | inl (u', v) ↦
          let (_, fine, finite_rate, positive) = validate_passed start target rate u' v in
          ground (arith, v, fine, finite_rate, positive)
      | inr (e, v) ↦ absurd (let h' = rw v at h in ground (arith, h'))
    ]

set_revision-Good : (k : ℕ) (r : RuntimeReference) → Good r → Good (set_revision k r)
unfolding set_revision Good
set_revision-Good k (RuntimeReference.fixed_target id r n) good = good
set_revision-Good k (RuntimeReference.ramp_target id s n) good = good

-- The replacement is the new reference with the next revision; it keeps the identity.
pub record Replaced (c : ReferenceConfig) (expected : ℕ) (r r' : RuntimeReference) : Type 0 where
  pub identity : config_id c ≡ id_of r
  pub expected_revision : revision_of r ≡ expected
  pub made : RuntimeReference
  pub made_from : make_reference c ≡ ok made
  pub result : r' ≡ set_revision (expected + 1) made

next_revision :
    (n next : ℕ)
    → ok_or (checked_add n 1) ReferenceError.revision_exhausted ≡ ok next
    → next ≡ n + 1
unfolding checked_add
next_revision n next h = ground arith

same_target : (a b c d : ℕ) → (not (a == b) || not (c == d)) ≡ false → (a ≡ b) × (c ≡ d)
same_target a b c d h = ground arith

pub replacement-Replaced :
    (c : ReferenceConfig) (expected : ℕ) (r r' : RuntimeReference)
    → replacement c expected r ≡ ok r'
    → Replaced c expected r r'
unfolding replacement
replacement-Replaced c expected r r' h =
    elim (Bool-cases (not (config_id c == id_of r) || not (revision_of r == expected))) [
      | inl e ↦ absurd (let h' = rw e at h in ground (arith, h'))
      | inr e ↦
          let (next, n, h1) =
            passed (ok_or (checked_add expected 1) ReferenceError.revision_exhausted)
              (λ k. and_then (make_reference c) λ m. ok (set_revision k m)) r' (rw e at h) in
          let (m, made_from, h2) =
            passed (make_reference c) (λ m. ok (set_revision next m)) r' h1 in
          let (same, current) = same_target (config_id c) (id_of r) (revision_of r) expected e in
          let step : next ≡ expected + 1 = next_revision expected next n in
          record {
            identity = same;
            expected_revision = current;
            made = m;
            made_from = made_from;
            result = ground (arith, h2, step);
          }
    ]

replace_by-Good :
    (x : Result ReferenceError RuntimeReference) (r : RuntimeReference)
    → Good r
    → ((r' : RuntimeReference) → x ≡ ok r' → Good r')
    → Good (replace_by x r).1
unfolding replace_by
replace_by-Good (ok c) r good each = each c refl
replace_by-Good (err e) r good each = good

reconfigure-Good :
    (c : ReferenceConfig) (expected : ℕ) (r : RuntimeReference)
    → Good r
    → Good (reconfigure c expected r).1
unfolding reconfigure
reconfigure-Good c expected r good = replace_by-Good (replacement c expected r) r good λ r' h.
    let p = replacement-Replaced c expected r r' h in
    subst Good (sym p.result)
      (set_revision-Good (expected + 1) p.made (make_reference-Good c p.made p.made_from))

call-Good : (c : ReferenceCall) (r : RuntimeReference) → Good r → Good (call c r)
unfolding call
call-Good (ReferenceCall.evaluated at) r good =
    evaluated-Good r at (value_at at r) good (value_at-Evaluation at r good)
call-Good (ReferenceCall.retuned_to target rate expected at) r good =
    retune-Good target rate expected at r good
call-Good (ReferenceCall.reconfigured c expected) r good = reconfigure-Good c expected r good

pub calls-Good : (cs : List ReferenceCall) (r : RuntimeReference) → Good r → Good (calls cs r)
unfolding calls
calls-Good [] r good = good
calls-Good (c ∷ cs) r good = calls-Good cs (call c r) (call-Good c r good)

-- Whatever calls a configured reference has had, an evaluation either leaves it as it was, with an
-- error, or tells a finite value of its unit at the time asked for, which is not before the last one.
pub evaluations_in_order :
    (c : ReferenceConfig) (first : RuntimeReference) (cs : List ReferenceCall) (at : ℕ)
    → make_reference c ≡ ok first
    → Evaluation (calls cs first) at (value_at at (calls cs first))
evaluations_in_order c first cs at made =
    value_at-Evaluation at (calls cs first) (calls-Good cs first (make_reference-Good c first made))
