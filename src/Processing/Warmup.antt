-- ===== src/Processing/Warmup.antt =====
-- crates/lab-core/src/processing.rs: what one update tells, after any calls of the filter.
use lab_runtime.Base.{
  ℕ, ◌+◌, ◌≤◌, ◌<◌, ◌≡◌, ◌≢◌, ◌↔◌, inl, inr, refl, true, Option, none, some, List, F64, is_finite,
  Result, ok, err, u64_max, min, arith, Bool-cases, Result-cases, OnSome, not, ap, subst, ◌∙◌,
}
use lab_runtime.Model.{EngineeringUnit, unit_eq}
use lab_runtime.Signals.Quality.{SampleQuality}
use lab_runtime.Processing.Ema.{
  Ema, EmaConfig, EmaUpdate, EmaStatus, ProcessingError, new, update, attempt, commit_good, commit,
  candidate, counted, status_of, finite_candidate, is_late,
}
use lab_runtime.Processing.History.{
  EmaCall, calls, accepted_goods, Sound, calls-Sound, new-Sound, Paired, finite_candidate_finite,
  candidate-never_panics,
}

-- What an accepted good input leaves: its value and time, which is later than the one before.
pub record Taken (e : Ema) (w : EmaUpdate) (x : F64) (at : ℕ) (e' : Ema) : Type 0 where
  pub value_kept : e'.state.value ≡ some x
  pub time_kept : e'.state.last_at ≡ some at
  pub count_kept : e'.state.good_samples ≡ min (e.state.good_samples + 1) e.config.warmup_samples
  pub config_kept : e'.config ≡ e.config
  pub told_at : w.at ≡ at
  pub finite : is_finite x ≡ true
  pub later : OnSome (λ t. t < at) e.state.last_at
  pub told : (w.status ≡ EmaStatus.ready) ↔ (e'.state.good_samples ≡ e.config.warmup_samples)

module _ (exp_m1 : F64 → F64) where
  candidate_later :
      (tau : ℕ) (x : Option F64) (t : Option ℕ) (v y : F64) (at : ℕ)
      → Paired x t
      → candidate exp_m1 tau x t v at ≡ ok y
      → OnSome (λ b. b < at) t
  unfolding candidate Paired
  candidate_later tau none none v y at p h = tt
  candidate_later tau (some x) (some t) v y at p h = ground arith
  candidate_later tau none (some t) v y at p h = absurd p
  candidate_later tau (some x) none v y at p h = absurd p

-- What one update at `at` does to `e`: an error or an unavailable answer leaves it as it was.
unfoldable pub Answered : Ema → ℕ → EmaUpdate → Option F64 → Ema → Type 0
Answered e at w none e' = (w.status ≡ EmaStatus.unavailable) × (e' ≡ e)
Answered e at w (some x) e' = Taken e w x at e'

unfoldable pub Outcome : Ema → ℕ → Result ProcessingError EmaUpdate × Ema → Type 0
unfolding Answered
Outcome e at (err r, e') = (r ≢ ProcessingError.panicked) × (e' ≡ e)
Outcome e at (ok w, e') = Answered e at w w.value e'

module _ (exp_m1 : F64 → F64) where
  committed_later :
      (v : F64) (at : ℕ) (e : Ema) (x : F64)
      → Paired e.state.value e.state.last_at
      → finite_candidate exp_m1 v at e ≡ ok x
      → OnSome (λ b. b < at) e.state.last_at
  unfolding finite_candidate
  committed_later v at e x p h =
      elim (Result-cases
        (candidate exp_m1 e.config.time_constant e.state.value e.state.last_at v at)) [
          | inl (y, g) ↦
              candidate_later exp_m1 e.config.time_constant e.state.value e.state.last_at v y at p g
          | inr (b, g) ↦ absurd (let h' = rw g at h in ground (arith, h'))
        ]

  finite_candidate-never_panics :
      (v : F64) (at : ℕ) (e : Ema)
      → Paired e.state.value e.state.last_at
      → finite_candidate exp_m1 v at e ≢ err ProcessingError.panicked
  unfolding finite_candidate
  finite_candidate-never_panics v at e p h =
      elim (Result-cases
        (candidate exp_m1 e.config.time_constant e.state.value e.state.last_at v at)) [
          | inl (y, g) ↦ let h' = rw g at h in ground (arith, h')
          | inr (b, g) ↦
              let h' = rw g at h in
              candidate-never_panics exp_m1 e.config.time_constant e.state.value e.state.last_at v
                at p (g ∙ h')
        ]

  commit_good-Outcome :
      (e : Ema) (r : Result ProcessingError F64) (u : EngineeringUnit) (at : ℕ)
      → e.config.warmup_samples ≤ u64_max
      → (r ≢ err ProcessingError.panicked)
      → ((x : F64) → r ≡ ok x → is_finite x ≡ true)
      → ((x : F64) → r ≡ ok x → OnSome (λ b. b < at) e.state.last_at)
      → Outcome e at (commit_good r u at e)
  unfolding commit_good commit counted status_of Outcome Answered
  commit_good-Outcome e (ok x) u at fits safe fin late = record {
    value_kept = refl;
    time_kept = refl;
    count_kept = omega (arith, fits);
    config_kept = refl;
    told_at = refl;
    finite = fin x refl;
    later = late x refl;
    told = (λ h. ground (arith, h), λ h. ground (arith, h));
  }
  commit_good-Outcome e (err r) u at fits safe fin late = (λ p. safe (ap err p), refl)

  attempt-Outcome :
      (e : Ema) (v : Option F64) (q : SampleQuality) (u : EngineeringUnit) (at : ℕ)
      → e.config.warmup_samples ≤ u64_max
      → Paired e.state.value e.state.last_at
      → Outcome e at (attempt exp_m1 v q u at e)
  unfolding attempt Outcome Answered
  attempt-Outcome e none SampleQuality.unavailable u at fits p =
      elim (Bool-cases (is_late at e.state.last_at)) [
        | inl h ↦ rw h (ground arith, refl)
        | inr h ↦ rw h (refl, refl)
      ]
  attempt-Outcome e (some v) SampleQuality.good u at fits p = elim (Bool-cases (is_finite v)) [
    | inl h ↦ rw h (
        commit_good-Outcome e (finite_candidate exp_m1 v at e) u at fits
          (finite_candidate-never_panics v at e p) (finite_candidate_finite exp_m1 v at e)
          (λ x g. committed_later v at e x p g))
    | inr h ↦ rw h (ground arith, refl)
  ]
  attempt-Outcome e none SampleQuality.good u at fits p = (ground arith, refl)
  attempt-Outcome e (some v) SampleQuality.unavailable u at fits p = (ground arith, refl)

  update-Outcome :
      (e : Ema) (v : Option F64) (q : SampleQuality) (u : EngineeringUnit) (at : ℕ)
      → e.config.warmup_samples ≤ u64_max
      → Paired e.state.value e.state.last_at
      → Outcome e at (update exp_m1 v q u at e)
  unfolding update Outcome
  update-Outcome e v q u at fits p = elim (Bool-cases (not (unit_eq u e.config.unit))) [
    | inl h ↦ rw h (ground arith, refl)
    | inr h ↦ rw h (attempt-Outcome e v q u at fits p)
  ]

  -- After any calls of a filter, an update never panics; an error and an unavailable answer leave
  -- the filter as it was; a value that it answers is finite and later than the one before it, the
  -- filter then holds exactly that value, its time and one good sample more, up to the configured
  -- number, and the answer is ready exactly if that number is reached.
  pub updates_answered :
      (c : EmaConfig) (first : Ema) (cs : List EmaCall)
      → c.warmup_samples ≤ u64_max
      → new c ≡ ok first
      → (v : Option F64) (q : SampleQuality) (u : EngineeringUnit) (at : ℕ)
      → Outcome (calls exp_m1 cs first) at (update exp_m1 v q u at (calls exp_m1 cs first))
  updates_answered c first cs fits made v q u at =
      let s = calls-Sound exp_m1 c 0 cs first (new-Sound c first fits made) in
      update-Outcome (calls exp_m1 cs first) v q u at (omega (arith, s.warmup_kept, s.warmup_fits))
        s.paired

  ready_once_warm :
      (n : ℕ) (c : EmaConfig) (e e' : Ema) (w : EmaUpdate) (x : F64) (at : ℕ)
      → Sound c n e
      → Taken e w x at e'
      → (w.status ≡ EmaStatus.ready) ↔ (c.warmup_samples ≤ n + 1)
  ready_once_warm n c e e' w x at s k = (
    λ h.
        let full = k.told.0 h in
        omega (arith, full, k.count_kept, s.samples, s.warmup_kept, s.warmup_fits),
    λ h. k.told.1 (omega (arith, h, k.count_kept, s.samples, s.warmup_kept, s.warmup_fits)),
  )

  value_told :
      (e e' : Ema) (at : ℕ) (w : EmaUpdate) (x : F64)
      → Outcome e at (ok w, e')
      → w.value ≡ some x
      → Taken e w x at e'
  unfolding Outcome Answered
  value_told e e' at w x o h = subst (λ v. Answered e at w v e') h o

  -- A value is ready for control exactly if it is at least the `warmup_samples`-th good input that
  -- the filter has taken since it was made or reset.
  pub ready_exactly :
      (c : EmaConfig) (first : Ema) (cs : List EmaCall)
      → c.warmup_samples ≤ u64_max
      → new c ≡ ok first
      → (v : Option F64) (q : SampleQuality) (u : EngineeringUnit) (at : ℕ) (w : EmaUpdate)
        (x : F64)
      → (update exp_m1 v q u at (calls exp_m1 cs first)).0 ≡ ok w
      → w.value ≡ some x
      → (w.status ≡ EmaStatus.ready) ↔ (c.warmup_samples ≤ accepted_goods exp_m1 cs first 0 + 1)
  ready_exactly c first cs fits made v q u at w x done has =
      let e = calls exp_m1 cs first in
      let e' = (update exp_m1 v q u at e).1 in
      let o : Outcome e at (update exp_m1 v q u at e) =
        updates_answered c first cs fits made v q u at in
      let o' : Outcome e at (ok w, e') = subst (λ r. Outcome e at (r, e')) done o in
      ready_once_warm (accepted_goods exp_m1 cs first 0) c e e' w x at
        (calls-Sound exp_m1 c 0 cs first (new-Sound c first fits made))
        (value_told e e' at w x o' has)
