-- ===== src/Output/Invariant/Lifecycle.antt =====
-- The invariant under binding, acquisition, renewal and proposals.
use lab_runtime.Base.{ℕ, arith, checked_add}
use lab_runtime.Output.Types.{OutputOwner, OutputLease, SafeProfile}
use lab_runtime.Output.Authority.{OutputAuthority, is_armed}
use lab_runtime.Output.Lifecycle.{
  OutputProposal, bind, acquire, renew, renew_native, propose, armed_by,
}
use lab_runtime.Output.Commands.{renew_manual_lease}
use lab_runtime.Output.Permission.{check_lease-Permits}
use lab_runtime.Output.Invariant.{Inv, is_revoked}

pub bind-Inv : (p : SafeProfile) (a : OutputAuthority) → Inv a → Inv (bind p a).1
unfolding bind checked_add is_revoked is_armed armed_by
bind-Inv p a v = ground arith

pub acquire-Inv :
    (owner : OutputOwner) (lifetime at : ℕ) (a : OutputAuthority)
    → Inv a
    → Inv (acquire owner lifetime at a).1
unfolding acquire checked_add is_revoked is_armed
acquire-Inv owner lifetime at a v = ground arith

pub renew-Inv :
    (l : OutputLease) (lifetime at : ℕ) (a : OutputAuthority)
    → Inv a
    → Inv (renew l lifetime at a).1
unfolding renew is_revoked is_armed armed_by
renew-Inv l lifetime at a v = ground (arith, check_lease-Permits l at a)

pub renew_native-Inv :
    (l : OutputLease) (lifetime at : ℕ) (a : OutputAuthority)
    → Inv a
    → Inv (renew_native l lifetime at a).1
unfolding renew_native
renew_native-Inv l lifetime at a v = ground (arith, renew-Inv l lifetime at a v)

pub renew_manual_lease-Inv :
    (l : OutputLease) (lifetime at : ℕ) (a : OutputAuthority)
    → Inv a
    → Inv (renew_manual_lease l lifetime at a).1
unfolding renew_manual_lease
renew_manual_lease-Inv l lifetime at a v = ground (arith, renew-Inv l lifetime at a v)

pub propose-Inv :
    (q : OutputProposal) (at : ℕ) (a : OutputAuthority) → Inv a → Inv (propose q at a).1
unfolding propose
propose-Inv q at a v = ground (arith, check_lease-Permits q.lease at a)
