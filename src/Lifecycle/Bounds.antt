-- ===== src/Lifecycle/Bounds.antt =====
-- crates/lab-core/src/runtime/controllers.rs: what a tick may propose.
use lab_runtime.Base.{
  ℕ, ◌+◌, ◌-◌, ◌≤◌, ◌<◌, ◌≡◌, inl, inr, refl, sym, ap, subst, ◌∙◌, true, ◌||◌, not, ltb, leb,
  u64_eq, some, F64, is_finite, f64_le, Result, ok, err, guard, ok_or, after_step, after_check,
  arith, Bool-cases, Result-cases, Option-cases,
}
use lab_runtime.Model.{EngineeringUnit, unit_eq, ControllerError, Value}
use lab_runtime.Output.Types.{OutputLease, is_lease}
use lab_runtime.Signals.Sample.{Sample, Reading}
use lab_runtime.Signals.Buffer.{SignalBuffer, latest}
use lab_runtime.Processing.Ema.{EmaUpdate}
use lab_runtime.Reference.Ramp.{ReferenceValue}
use lab_runtime.Control.Pid
use lab_runtime.Control.Pid.{Pid, PidError, PidUpdate, is_valid_config}
use lab_runtime.Control.Limits.{Paired, Updating, update-Updating}
use lab_runtime.Control.Native.{NativeController, replace_error}
use lab_runtime.Lifecycle.Loop.{Loop}
use lab_runtime.Lifecycle.Input.{Input, usable, fresh_reading, input_of, control_input}
use lab_runtime.Lifecycle.Proposal.{
  Draft, reference_at, filter, regulate, within_gap, own_lease, is_ready, lifetime, draft,
  calculate,
}

-- An input is a finite value of a sample that is not from the future and not too old.
pub record Fresh (at max_age : ℕ) (i : Input) : Type 0 where
  pub finite : is_finite i.value ≡ true
  pub past : i.sample_at ≤ at
  pub young : at < i.sample_at + max_age

usable-Fresh :
    (v : Value) (s : Sample) (at max_age : ℕ) (i : Input)
    → s.freshness_at ≤ at
    → at < s.freshness_at + max_age
    → usable v s ≡ ok i
    → Fresh at max_age i
unfolding usable
usable-Fresh (Value.float x) s at max_age i p y h = ground arith
usable-Fresh (Value.integer n) s at max_age i p y h = absurd (ground arith)
usable-Fresh (Value.boolean b) s at max_age i p y h = absurd (ground arith)
usable-Fresh (Value.text t) s at max_age i p y h = absurd (ground arith)
usable-Fresh (Value.enum t) s at max_age i p y h = absurd (ground arith)

reading-Fresh :
    (r : Reading) (s : Sample) (at max_age : ℕ) (i : Input)
    → fresh_reading r s at max_age ≡ ok i
    → Fresh at max_age i
unfolding fresh_reading
reading-Fresh (Reading.no_reading reason) s at max_age i h = absurd (ground arith)
reading-Fresh (Reading.good_reading v) s at max_age i h =
    elim (Bool-cases (ltb at s.freshness_at)) [
      | inl e ↦ absurd (let h' = rw e at h in ground (arith, h'))
      | inr e ↦ elim (Bool-cases (leb max_age (at - s.freshness_at))) [
        | inl f ↦ absurd (let h' = rw (e, f) at h in ground (arith, h'))
        | inr f ↦
            usable-Fresh v s at max_age i (ground (arith, e)) (ground (arith, e, f))
              (rw (e, f) at h)
      ]
    ]

pub control_input-Fresh :
    (b : SignalBuffer) (at max_age : ℕ) (i : Input)
    → control_input b at max_age ≡ ok i
    → Fresh at max_age i
unfolding control_input input_of
control_input-Fresh b at max_age i h = elim (Option-cases (latest b)) [
  | inl e ↦ absurd (let h' = rw e at h in ground (arith, h'))
  | inr (s, e) ↦ reading-Fresh s.reading s at max_age i (rw e at h)
]

-- The lease of a tick: the controller's own, live, and the authority's.
pub record Leased (at : ℕ) (l : Loop) (lease : OutputLease) : Type 0 where
  pub own : l.control.lease ≡ some lease
  pub live : at < lease.expires
  pub current : is_lease l.authority.snapshot.lease lease ≡ true

own_lease-Leased :
    (at : ℕ) (l : Loop) (lease : OutputLease) → own_lease at l ≡ ok lease → Leased at l lease
unfolding own_lease
own_lease-Leased at l lease h = elim (Option-cases l.control.lease) [
  | inl e ↦ absurd (let h' = rw e at h in ground (arith, h'))
  | inr (m, e) ↦
      elim (Bool-cases (leb m.expires at || not (is_lease l.authority.snapshot.lease m))) [
        | inl f ↦ absurd (let h' = rw (e, f) at h in ground (arith, h'))
        | inr f ↦
            let h' : Path (Result ControllerError OutputLease) (ok m) (ok lease) = rw (e, f) at h in
            let same : m ≡ lease = ground (arith, h') in
            subst (Leased at l) same
              (record { own = e; live = ground (arith, f); current = ground (arith, f) })
      ]
]

-- A tick at `at` may propose `x` for the time `ttl` under `lease`, from `l`.
pub record Proposed (at : ℕ) (l : Loop) (lease : OutputLease) (x : F64) (ttl : ℕ) : Type 0 where
  pub leased : Leased at l lease
  pub input : Input
  pub observed : control_input l.samples at l.control.config.max_input_age ≡ ok input
  pub fresh : Fresh at l.control.config.max_input_age input
  pub live : 0 < ttl
  pub within_policy : ttl ≤ l.control.config.proposal_ttl
  pub within_lease : at + ttl ≤ lease.expires
  pub within_freshness : at + ttl ≤ input.sample_at + l.control.config.max_input_age
  pub in_limits :
      (f64_le l.control.pid.config.output_min x ≡ true)
      × (f64_le x l.control.pid.config.output_max ≡ true)
  pub finite : is_finite x ≡ true

draft_told :
    (output_unit : Result ControllerError EngineeringUnit) (ttl : ℕ) (u : PidUpdate) (d : Draft)
    → draft output_unit ttl u ≡ ok d
    → (d.pid ≡ u) × (d.ttl ≡ ttl) × (0 < ttl)
unfolding draft
draft_told output_unit ttl u d h = elim (Result-cases output_unit) [
  | inl (w, e) ↦ ground (arith, e)
  | inr (b, e) ↦ ground (arith, e)
]

told_ok : {E F A : Type 0} (f : F) (r : Result E A) (a : A) → replace_error f r ≡ ok a → r ≡ ok a
told_ok f (ok b) a h = ground (arith, h)
told_ok f (err e) a h = absurd (ground arith)

controlled_limits :
    (x : Pid) (measurement setpoint : F64) (at : ℕ) (u : PidUpdate)
    → is_valid_config x.config ≡ true
    → Paired x.state.previous_measurement x.state.last_at
    → (Pid.update measurement setpoint at x).0 ≡ ok u
    → (f64_le x.config.output_min u.output ≡ true)
      × (f64_le u.output x.config.output_max ≡ true)
      × (is_finite u.output ≡ true)
unfolding Updating
controlled_limits x measurement setpoint at u valid paired done =
    let x' = (Pid.update measurement setpoint at x).1 in
    let all : Updating x measurement setpoint at (ok u, x') =
      subst (λ r. Updating x measurement setpoint at (r, x')) done
        (update-Updating x measurement setpoint at valid paired) in
    (all.within.0, all.within.1, all.finite)

regulated :
    (x r : F64) (at : ℕ) (l l' : Loop) (u : PidUpdate)
    → is_valid_config l.control.pid.config ≡ true
    → Paired l.control.pid.state.previous_measurement l.control.pid.state.last_at
    → regulate x r at l ≡ (ok u, l')
    → (f64_le l.control.pid.config.output_min u.output ≡ true)
      × (f64_le u.output l.control.pid.config.output_max ≡ true)
      × (is_finite u.output ≡ true)
      × (l'.control.config ≡ l.control.config)
unfolding regulate
regulated x r at l l' u valid paired h =
    let done =
      told_ok ControllerError.algorithm (Pid.update x r at l.control.pid).0 u (ap (λ p. p.0) h) in
    let (above, below, fin) = controlled_limits l.control.pid x r at u valid paired done in
    (above, below, fin, sym (ap (λ p. p.1.control.config) h))

reference_keeps :
    (at : ℕ) (l l' : Loop) (r : ReferenceValue)
    → reference_at at l ≡ (ok r, l')
    → l'.control ≡ l.control
unfolding reference_at
reference_keeps at l l' r h = sym (ap (λ p. p.1.control) h)

filter_keeps :
    (exp_m1 : F64 → F64) (i : Input) (l l' : Loop) (e : EmaUpdate)
    → filter exp_m1 i l ≡ (ok e, l')
    → (l'.control.pid ≡ l.control.pid) × (l'.control.config ≡ l.control.config)
unfolding filter
filter_keeps exp_m1 i l l' e h =
    (sym (ap (λ p. p.1.control.pid) h), sym (ap (λ p. p.1.control.config) h))

-- The smallest of three lifetimes.
lifetime_least :
    (at : ℕ) (i : Input) (lease : OutputLease) (c : NativeController)
    → Fresh at c.config.max_input_age i
    → at < lease.expires
    → (lifetime at i lease c ≤ c.config.proposal_ttl)
      × (at + lifetime at i lease c ≤ lease.expires)
      × (at + lifetime at i lease c ≤ i.sample_at + c.config.max_input_age)
unfolding lifetime
lifetime_least at i lease c f live =
    (omega arith, omega (arith, live), omega (arith, f.past, f.young))

assembled :
    (at : ℕ) (l : Loop) (lease : OutputLease) (i : Input) (u : PidUpdate) (d : Draft) (ttl : ℕ)
    → Leased at l lease
    → control_input l.samples at l.control.config.max_input_age ≡ ok i
    → f64_le l.control.pid.config.output_min u.output ≡ true
    → f64_le u.output l.control.pid.config.output_max ≡ true
    → is_finite u.output ≡ true
    → d.pid ≡ u
    → d.ttl ≡ ttl
    → ttl ≡ lifetime at i lease l.control
    → 0 < ttl
    → Proposed at l lease d.pid.output d.ttl
assembled at l lease i u d ttl leased seen above below fin same long least live =
    let fresh = control_input-Fresh l.samples at l.control.config.max_input_age i seen in
    let (policy, expiry, freshness) = lifetime_least at i lease l.control fresh leased.live in
    let length_of : d.ttl ≡ lifetime at i lease l.control = long ∙ least in
    record {
      leased = leased;
      input = i;
      observed = seen;
      fresh = fresh;
      live = omega (arith, long, live);
      within_policy = omega (arith, length_of, policy);
      within_lease = omega (arith, length_of, expiry);
      within_freshness = omega (arith, length_of, freshness);
      in_limits = (
        ap (λ (w : PidUpdate). f64_le l.control.pid.config.output_min w.output) same ∙ above,
        ap (λ (w : PidUpdate). f64_le w.output l.control.pid.config.output_max) same ∙ below,
      );
      finite = ap (λ (w : PidUpdate). is_finite w.output) same ∙ fin;
    }

lifetime_config :
    (at : ℕ) (i : Input) (lease : OutputLease) (c d : NativeController)
    → c.config ≡ d.config
    → lifetime at i lease c ≡ lifetime at i lease d
unfolding lifetime
lifetime_config at i lease c d h = rw h refl

-- The end of the calculation, from the state `m` in which the algorithm runs.
regulated_assembled :
    (output_unit : Result ControllerError EngineeringUnit) (at : ℕ) (l : Loop) (lease : OutputLease)
    (i : Input) (x r : F64) (m l' : Loop) (u : PidUpdate) (d : Draft)
    → is_valid_config l.control.pid.config ≡ true
    → Paired l.control.pid.state.previous_measurement l.control.pid.state.last_at
    → Leased at l lease
    → control_input l.samples at l.control.config.max_input_age ≡ ok i
    → m.control.pid ≡ l.control.pid
    → m.control.config ≡ l.control.config
    → regulate x r at m ≡ (ok u, l')
    → draft output_unit (lifetime at i lease l'.control) u ≡ ok d
    → Proposed at l lease d.pid.output d.ttl
regulated_assembled output_unit at l lease i x r m l' u d valid paired leased seen p g moved
      drafted =
    let (above, below, fin, g') =
      regulated x r at m l' u (subst (λ (q : Pid). is_valid_config q.config ≡ true) (sym p) valid)
        (subst (λ (q : Pid). Paired q.state.previous_measurement q.state.last_at) (sym p) paired)
        moved in
    let (same, long, live) = draft_told output_unit (lifetime at i lease l'.control) u d drafted in
    assembled at l lease i u d (lifetime at i lease l'.control) leased seen
      (ap (λ (q : Pid). f64_le q.config.output_min u.output) (sym p) ∙ above)
      (ap (λ (q : Pid). f64_le u.output q.config.output_max) (sym p) ∙ below) fin same long
      (lifetime_config at i lease l'.control l.control (g' ∙ g)) live

pub calculate-Proposed :
    (exp_m1 : F64 → F64) (output_unit : Result ControllerError EngineeringUnit) (at : ℕ)
    (l l' : Loop) (d : Draft)
    → is_valid_config l.control.pid.config ≡ true
    → Paired l.control.pid.state.previous_measurement l.control.pid.state.last_at
    → calculate exp_m1 output_unit at l ≡ (ok d, l')
    → (lease : OutputLease) × Proposed at l lease d.pid.output d.ttl
unfolding calculate
calculate-Proposed exp_m1 output_unit at l l' d valid paired h =
    after_check (within_gap at l.control.last_tick l.control.config.max_tick_gap) l _ d l' h
      λ _ _ k0. after_check (own_lease at l) l _ d l' k0 λ lease owned k1.
        after_check (control_input l.samples at l.control.config.max_input_age) l _ d l' k1
          λ i seen k2. after_step (reference_at at l) _ d l' k2 λ r l3 told k3.
            after_check
              (guard (unit_eq r.unit i.unit) ControllerError.invalid_controller_configuration) l3 _
              d l' k3
              λ _ _ k4. after_step (filter exp_m1 i l3) _ d l' k4 λ e l5 filtered k5.
                after_check (guard (is_ready e.status) ControllerError.algorithm) l5 _ d l' k5
                  λ _ _ k6.
                    after_check (ok_or e.value ControllerError.algorithm) l5 _ d l' k6 λ x _ k7.
                      after_step (regulate x r.value at l5) _ d l' k7 λ u l8 moved k8.
                        let same = reference_keeps at l l3 r told in
                        let (pid_kept, config_kept) = filter_keeps exp_m1 i l3 l5 e filtered in
                        (
                          lease,
                          regulated_assembled output_unit at l lease i x r.value l5 l8 u d valid
                              paired (own_lease-Leased at l lease owned) seen
                              (pid_kept ∙ ap (λ (c : NativeController). c.pid) same)
                              (config_kept ∙ ap (λ (c : NativeController). c.config) same) moved
                              (ap (λ q. q.0) k8),
                        )
