-- ===== src/Processing/History.antt =====
-- crates/lab-core/src/processing.rs: any calls of one filter, in order, and what holds after them.
-- `accepted_goods` counts, beside the filter, the good inputs that it took since it was made or reset.
use lab_runtime.Base.{
  ℕ, ◌+◌, ◌≤◌, ◌≡◌, ◌≢◌, inl, inr, refl, true, min, Option, none, some, List, [], ◌∷◌, F64,
  is_finite, Result, ok, err, u64_max, arith, ◌==◌, u64_eq, and_then, guard, Bool-cases, not,
}
use lab_runtime.Model.{EngineeringUnit, unit_eq}
use lab_runtime.Signals.Quality.{SampleQuality}
use lab_runtime.Processing.Ema.{
  Ema, EmaConfig, EmaUpdate, ProcessingError, new, update, retune, reset, attempt, commit_good,
  commit, counted, candidate, finite_candidate, is_late,
}

pub data EmaCall : Type 0 where
  update_with : Option F64 → SampleQuality → EngineeringUnit → ℕ → EmaCall
  retune_to : ℕ → EmaCall
  restart : EmaCall

abbrev pub result_goods : Result ProcessingError EmaUpdate → ℕ → ℕ
result_goods (err e) n = n
result_goods (ok u) n = elim u.value [ none ↦ n | some x ↦ n + 1 ]

module _ (exp_m1 : F64 → F64) where
  unfoldable pub call : EmaCall → Ema → Ema
  call (EmaCall.update_with v q u at) e = (update exp_m1 v q u at e).1
  call (EmaCall.retune_to t) e = (retune t e).1
  call EmaCall.restart e = reset e

  unfoldable pub calls : List EmaCall → Ema → Ema
  unfolding call
  calls [] e = e
  calls (c ∷ cs) e = calls cs (call c e)

  unfoldable pub call_goods : EmaCall → Ema → ℕ → ℕ
  call_goods (EmaCall.update_with v q u at) e n = result_goods (update exp_m1 v q u at e).0 n
  call_goods (EmaCall.retune_to t) e n = n
  call_goods EmaCall.restart e n = 0

  unfoldable pub accepted_goods : List EmaCall → Ema → ℕ → ℕ
  unfolding call_goods call
  accepted_goods [] e n = n
  accepted_goods (c ∷ cs) e n = accepted_goods cs (call c e) (call_goods c e n)

-- Value and time are there together, and the value is a finite number.
unfoldable pub Paired : Option F64 → Option ℕ → Type 0
Paired none none = Unit {0}
Paired (some x) (some t) = is_finite x ≡ true
Paired none (some t) = ⊥
Paired (some x) none = ⊥

-- The filter was made with `c`, and `n` good inputs have been taken.
pub record Sound (c : EmaConfig) (n : ℕ) (e : Ema) : Type 0 where
  pub warmup_kept : e.config.warmup_samples ≡ c.warmup_samples
  pub unit_kept : e.config.unit ≡ c.unit
  pub tau_positive : 0 ≢ e.config.time_constant
  pub warmup_positive : 0 ≢ e.config.warmup_samples
  pub warmup_fits : e.config.warmup_samples ≤ u64_max
  pub paired : Paired e.state.value e.state.last_at
  pub samples : e.state.good_samples ≡ min n e.config.warmup_samples

module _ (exp_m1 : F64 → F64) where
  pub candidate-never_panics :
      (tau : ℕ) (x : Option F64) (t : Option ℕ) (v : F64) (at : ℕ)
      → Paired x t
      → candidate exp_m1 tau x t v at ≢ err ProcessingError.panicked
  unfolding Paired candidate
  candidate-never_panics tau x t v at p = ground arith

  -- What is committed is a finite number.
  checked_finite :
      (r : Result ProcessingError F64) (x : F64)
      → and_then r (λ y. and_then (guard (is_finite y) ProcessingError.non_finite) (λ _. ok y))
        ≡ ok x
      → is_finite x ≡ true
  checked_finite (ok y) x h = elim (Bool-cases (is_finite y)) [
    | inl f ↦ ground (arith, f)
    | inr f ↦ ground (arith, f)
  ]
  checked_finite (err e) x h = absurd (ground arith)

  pub finite_candidate_finite :
      (v : F64) (at : ℕ) (e : Ema) (x : F64)
      → finite_candidate exp_m1 v at e ≡ ok x
      → is_finite x ≡ true
  unfolding finite_candidate
  finite_candidate_finite v at e x h = checked_finite _ x h

  commit-Sound :
      (c : EmaConfig) (n : ℕ) (e : Ema) (x : F64) (at : ℕ)
      → Sound c n e
      → is_finite x ≡ true
      → Sound c (n + 1) (commit x at e)
  unfolding commit counted Paired
  commit-Sound c n e x at s fin = record {
    warmup_kept = s.warmup_kept;
    unit_kept = s.unit_kept;
    tau_positive = s.tau_positive;
    warmup_positive = s.warmup_positive;
    warmup_fits = s.warmup_fits;
    paired = fin;
    samples = omega (arith, s.samples, s.warmup_fits);
  }

  commit_good-Sound :
      (c : EmaConfig) (n : ℕ) (e : Ema) (r : Result ProcessingError F64) (u : EngineeringUnit)
      (at : ℕ)
      → Sound c n e
      → ((x : F64) → r ≡ ok x → is_finite x ≡ true)
      → Sound c (result_goods (commit_good r u at e).0 n) (commit_good r u at e).1
  unfolding commit_good
  commit_good-Sound c n e (ok x) u at s fin = commit-Sound c n e x at s (fin x refl)
  commit_good-Sound c n e (err r) u at s fin = s

  attempt-Sound :
      (c : EmaConfig) (n : ℕ) (e : Ema) (v : Option F64) (q : SampleQuality) (u : EngineeringUnit)
      (at : ℕ)
      → Sound c n e
      → Sound c (result_goods (attempt exp_m1 v q u at e).0 n) (attempt exp_m1 v q u at e).1
  unfolding attempt
  attempt-Sound c n e none SampleQuality.unavailable u at s =
      elim (Bool-cases (is_late at e.state.last_at)) [ inl h ↦ rw h s | inr h ↦ rw h s ]
  attempt-Sound c n e (some v) SampleQuality.good u at s = elim (Bool-cases (is_finite v)) [
    | inl h ↦ rw h (
        commit_good-Sound c n e (finite_candidate exp_m1 v at e) u at s
          (finite_candidate_finite v at e))
    | inr h ↦ rw h s
  ]
  attempt-Sound c n e none SampleQuality.good u at s = s
  attempt-Sound c n e (some v) SampleQuality.unavailable u at s = s

  pub update-Sound :
      (c : EmaConfig) (n : ℕ) (e : Ema) (v : Option F64) (q : SampleQuality) (u : EngineeringUnit)
      (at : ℕ)
      → Sound c n e
      → Sound c (result_goods (update exp_m1 v q u at e).0 n) (update exp_m1 v q u at e).1
  unfolding update
  update-Sound c n e v q u at s = elim (Bool-cases (not (unit_eq u e.config.unit))) [
    | inl h ↦ rw h s
    | inr h ↦ rw h (attempt-Sound c n e v q u at s)
  ]

  retune-Sound : (c : EmaConfig) (n t : ℕ) (e : Ema) → Sound c n e → Sound c n (retune t e).1
  unfolding retune
  retune-Sound c n t e s = elim (Bool-cases (t == 0)) [
    | inl h ↦ rw h s
    | inr h ↦ rw h (record {
      warmup_kept = s.warmup_kept;
      unit_kept = s.unit_kept;
      tau_positive = ground (arith, h);
      warmup_positive = s.warmup_positive;
      warmup_fits = s.warmup_fits;
      paired = s.paired;
      samples = s.samples;
    })
  ]

  reset-Sound : (c : EmaConfig) (n : ℕ) (e : Ema) → Sound c n e → Sound c 0 (reset e)
  unfolding reset Paired
  reset-Sound c n e s = record {
    warmup_kept = s.warmup_kept;
    unit_kept = s.unit_kept;
    tau_positive = s.tau_positive;
    warmup_positive = s.warmup_positive;
    warmup_fits = s.warmup_fits;
    paired = tt;
    samples = omega arith;
  }

  call-Sound :
      (k : EmaConfig) (n : ℕ) (c : EmaCall) (e : Ema)
      → Sound k n e
      → Sound k (call_goods exp_m1 c e n) (call exp_m1 c e)
  unfolding call call_goods
  call-Sound k n (EmaCall.update_with v q u at) e s = update-Sound k n e v q u at s
  call-Sound k n (EmaCall.retune_to t) e s = retune-Sound k n t e s
  call-Sound k n EmaCall.restart e s = reset-Sound k n e s

  pub calls-Sound :
      (k : EmaConfig) (n : ℕ) (cs : List EmaCall) (e : Ema)
      → Sound k n e
      → Sound k (accepted_goods exp_m1 cs e n) (calls exp_m1 cs e)
  unfolding calls accepted_goods
  calls-Sound k n [] e s = s
  calls-Sound k n (c ∷ cs) e s =
      calls-Sound k (call_goods exp_m1 c e n) cs (call exp_m1 c e) (call-Sound k n c e s)

pub new-Sound : (c : EmaConfig) (e : Ema) → c.warmup_samples ≤ u64_max → new c ≡ ok e → Sound c 0 e
unfolding new Paired
new-Sound c e fits h = ground arith
