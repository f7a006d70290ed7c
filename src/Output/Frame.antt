-- ===== src/Output/Frame.antt =====
-- What every call leaves alone or only moves forward: epochs, dispatch numbers, the origin of a
-- lease, and the sends of an authority whose safe write ended ambiguously.
pub mod Methods
pub mod Runs
use lab_runtime.Base.{ℕ, ◌≤◌, ◌<◌, ◌≡◌, ◌⊎◌, true, Option, none, some, OnSome, arith, ◌+◌, refl}
use lab_runtime.Output.Types.{OutputLease}
use lab_runtime.Output.Authority.{OutputAuthority}

abbrev pub epoch_of : Option OutputLease → Option ℕ
epoch_of none = none
epoch_of (some l) = some l.epoch

-- A lease of `b` is the renewed lease of `a`, or younger than every lease of `a`.
abbrev pub LeaseFollows : OutputAuthority → OutputLease → Type 0
LeaseFollows a l = (a.snapshot.epoch < l.epoch) ⊎ (epoch_of a.snapshot.lease ≡ some l.epoch)

pub record Frame (a b : OutputAuthority) : Type 0 where
  pub epoch_le : a.snapshot.epoch ≤ b.snapshot.epoch
  pub dispatch_le : a.next_dispatch ≤ b.next_dispatch
  pub instance_eq : b.instance_id ≡ a.instance_id
  pub lease_follows : OnSome (LeaseFollows a) b.snapshot.lease
  pub blocked_silent :
      a.ambiguous_safe_resend_blocked ≡ true
      → (b.ambiguous_safe_resend_blocked ≡ true)
        × (b.snapshot.sent ≡ a.snapshot.sent)
        × (b.next_dispatch ≡ a.next_dispatch)

pub Frame-refl : (a : OutputAuthority) → Frame a a
Frame-refl a = ground arith

pub Frame-trans : {a b c : OutputAuthority} → Frame a b → Frame b c → Frame a c
Frame-trans {a} {b} {c} f g = ground arith
