-- ===== src/Sessions/History.antt =====
-- apps/lab-runtime/src/sessions.rs: the calls that change a SessionStore, and runs of them.
use lab_runtime.Base.{ℕ, Bool, Option, List, [], ◌∷◌}
use lab_runtime.Sessions.Types.{Text, OperationState, Payload, SessionStore}
use lab_runtime.Sessions.Retention.{expire}
use lab_runtime.Sessions.Store.{open_scope, detach, admit_with_gate, complete}

-- Times come last, and for an admission the answer of its gate.
pub data Call (M : Type 0) : Type 0 where
  hello : Option Text → ℕ → ℕ → Call M
  disconnect : ℕ → ℕ → Call M
  request : Text → ℕ → M → ℕ → Bool → Call M
  outcome : Text → ℕ → OperationState → ℕ → Call M
  timer : ℕ → Call M

module _ {M : Type 0} (P : Payload M) where
  unfoldable pub perform : Call M → SessionStore M → SessionStore M
  unfolding open_scope detach admit_with_gate complete expire
  perform (Call.hello old c now) s = (open_scope old c now s).1
  perform (Call.disconnect c now) s = detach c now s
  perform (Call.request k q m now gate) s = (admit_with_gate P k q m now gate s).1
  perform (Call.outcome k q state now) s = (complete k q state now s).1
  perform (Call.timer now) s = expire now s

  unfoldable pub run : List (Call M) → SessionStore M → SessionStore M
  unfolding perform
  run [] s = s
  run (c ∷ cs) s = run cs (perform c s)
