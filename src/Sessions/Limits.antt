-- ===== src/Sessions/Limits.antt =====
-- apps/lab-runtime/src/sessions.rs: the limits of the store hold after every call.
use lab_runtime.Base.{ℕ, ok, ◌≡◌, refl, sym, subst, List, [], ◌∷◌, arith}
use lab_runtime.Sessions.Types.{Text, SessionStore, Payload}
use lab_runtime.Sessions.Retention.{sum_scopes, pending_count, terminal_count, charged}
use lab_runtime.Sessions.Store.{new}
use lab_runtime.Sessions.Keyed.{EachScope}
use lab_runtime.Sessions.Distinct.{Distinct}
use lab_runtime.Sessions.Enforcing.{complete-Bounded}
use lab_runtime.Sessions.History.{Call, perform, run}
use lab_runtime.Sessions.Once.{Issued, new-Issued, perform-Issued}
use lab_runtime.Sessions.Opening.{detach-Bounded, open_scope-Bounded}
use lab_runtime.Sessions.Admitting.{admit-Bounded}
use lab_runtime.Sessions.Bounds.{expire-Bounded, Bounded}

module _ {M : Type 0} where
  empty-Bounded :
      (boot : Text) (n : ℕ)
      → Bounded {M = M}
          (record { boot_id = boot; next_scope = n; scopes = []; retained_provisioning_bytes = 0 })
  unfolding pending_count terminal_count charged sum_scopes EachScope Distinct
  empty-Bounded boot n = record {
    sound = record {
      distinct = tt;
      each = tt;
      number = omega arith;
      pending = omega arith;
      terminal = omega arith;
      charge = omega arith;
    };
    credit = refl;
  }

  pub new-Bounded : (boot : Text) (s : SessionStore M) → new boot ≡ ok s → Bounded s
  unfolding new
  new-Bounded boot s fresh =
      let same : s ≡ record {
        boot_id = boot;
        next_scope = 1;
        scopes = [];
        retained_provisioning_bytes = 0;
      } =
        ground arith in
      subst Bounded (sym same) (empty-Bounded boot 1)

module _ {M : Type 0} (P : Payload M) where
  pub perform-Bounded :
      (c : Call M) (s : SessionStore M) → Issued s → Bounded s → Bounded (perform P c s)
  unfolding perform
  perform-Bounded (Call.hello old c now) s issued b = open_scope-Bounded old c now s issued b
  perform-Bounded (Call.disconnect c now) s issued b = detach-Bounded c now s b
  perform-Bounded (Call.request k q m now gate) s issued b = admit-Bounded P k q m now gate s b
  perform-Bounded (Call.outcome k q state now) s issued b = complete-Bounded k q state now s b
  perform-Bounded (Call.timer now) s issued b = expire-Bounded now s b

  pub run-Bounded :
      (cs : List (Call M)) (s : SessionStore M) → Issued s → Bounded s → Bounded (run P cs s)
  unfolding run
  run-Bounded [] s issued b = b
  run-Bounded (c ∷ cs) s issued b =
      run-Bounded cs (perform P c s) (perform-Issued P c s issued) (perform-Bounded c s issued b)

  -- After any calls on a new store there are at most 16 scopes with different identities, at most
  -- 8 pending and 32 terminal records in a scope and at most 64 and 256 in all, every scope's
  -- records have rising numbers up to its high-water mark and are dated exactly if terminal, and
  -- the provisioning credit in use is the sum of the retained charges, within its limit.
  pub run-new-Bounded :
      (boot : Text) (s : SessionStore M)
      → new boot ≡ ok s
      → (cs : List (Call M)) → Bounded (run P cs s)
  run-new-Bounded boot s fresh cs =
      run-Bounded cs s (new-Issued boot s fresh) (new-Bounded boot s fresh)
