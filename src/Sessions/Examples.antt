-- ===== src/Sessions/Examples.antt =====
-- apps/lab-runtime/src/sessions.rs: one client of a Runtime process starts a controller twice.
use lab_runtime.Base.{
  ◌≡◌, ◌≢◌, refl, true, false, none, some, List, [], ◌∷◌, ok, err, arith, if◌then◌else◌,
}
use lab_runtime.Sessions.Types.{
  Text, OperationState, Admission, SessionError, Payload, SessionStore,
}
use lab_runtime.Sessions.Mutation.{Mutation, Candidate, mutation_payload}
use lab_runtime.Sessions.ScopeId.{scope_key}
use lab_runtime.Sessions.Retention.{expire}
use lab_runtime.Sessions.Store.{status, new, admit_with_gate, admit}
use lab_runtime.Sessions.History.{Call, run}
use lab_runtime.Sessions.Decisions.{refused_keeps_store}
use lab_runtime.Sessions.Once.{accepted_once}
use lab_runtime.Sessions.Bounds.{Bounded}
use lab_runtime.Sessions.Survival.{spares}
use lab_runtime.Sessions.Histories.{accepted_until_completed, retry_answered}
use lab_runtime.Sessions.Limits.{run-new-Bounded}

-- A deployment with one candidate, of 100 canonical bytes.
abbrev only_candidate : Candidate (Unit {0})
only_candidate = record { same = λ a b. true; canonical_len = λ a. 100 }

abbrev Request : Type 0
Request = Mutation (Unit {0})

abbrev requests : Payload Request
requests = mutation_payload only_candidate

abbrev boot : Text
boot =
    48 ∷ 49 ∷ 50 ∷ 51 ∷ 52 ∷ 53 ∷ 54 ∷ 55 ∷ 56 ∷ 57 ∷ 97 ∷ 98 ∷ 99 ∷ 100 ∷ 101 ∷ 102 ∷ 48 ∷ 49 ∷ 50
    ∷ 51 ∷ 52 ∷ 53 ∷ 54 ∷ 55 ∷ 56 ∷ 57 ∷ 97 ∷ 98 ∷ 99 ∷ 100 ∷ 101 ∷ 102 ∷ []

abbrev start_7 : Request
start_7 = Mutation.start 7

abbrev pause_7 : Request
pause_7 = Mutation.pause 7

abbrev fresh : SessionStore Request
fresh = record { boot_id = boot; next_scope = 1; scopes = []; retained_provisioning_bytes = 0 }

abbrev first_key : Text
first_key = scope_key boot 1

abbrev hello : List (Call Request)
hello = Call.hello none 3 1000 ∷ []

abbrev opened : SessionStore Request
opened = run requests hello fresh

abbrev once : SessionStore Request
once = (admit_with_gate requests first_key 1 start_7 2000 true opened).1

abbrev later : List (Call Request)
later =
    Call.disconnect 3 2500
    ∷ Call.outcome first_key 1 (OperationState.completed []) 3000
    ∷ Call.timer 700000000000
    ∷ Call.hello (some first_key) 4 700000000001
    ∷ []

new-boot : new boot ≡ ok fresh
unfolding new
new-boot = refl

new_refuses : new {M = Request} (48 ∷ []) ≡ err SessionError.invalid_boot
unfolding new
new_refuses = refl

first_admitted :
    (admit_with_gate requests first_key 1 start_7 2000 true opened).0 ≡ Admission.accepted
unfolding admit_with_gate run mutation_payload scope_key
first_admitted = refl

second_known :
    (admit requests first_key 1 start_7 2001 once).0 ≡ Admission.known OperationState.accepted
unfolding admit admit_with_gate run mutation_payload scope_key
second_known = refl

gap_refused : (admit requests first_key 3 start_7 2001 once).0 ≡ Admission.gap
unfolding admit admit_with_gate run mutation_payload scope_key
gap_refused = refl

evicted_unknown :
    (admit requests first_key 1 start_7 700000000002 (run requests later once)).0
    ≡ Admission.unknown
unfolding admit admit_with_gate run mutation_payload scope_key
evicted_unknown = refl

accepted_once_example :
    (admit_with_gate requests first_key 1 start_7 700000000002 true (run requests later once)).0
    ≢ Admission.accepted
unfolding admit_with_gate run mutation_payload scope_key
accepted_once_example =
    accepted_once requests boot fresh new-boot hello first_key 1 start_7 2000 true first_admitted
      later start_7 700000000002 true

gap_not_accepted :
    (admit_with_gate requests first_key 3 start_7 2001 true once).0 ≢ Admission.accepted
unfolding admit_with_gate run mutation_payload scope_key
gap_not_accepted h = ground (arith, h)

refused_keeps_store_example :
    (admit_with_gate requests first_key 3 start_7 2001 true once).1 ≡ expire 2001 once
refused_keeps_store_example =
    refused_keeps_store requests first_key 3 start_7 2001 true once gap_not_accepted

run-new-Bounded_example : Bounded (run requests later once)
unfolding admit_with_gate run
run-new-Bounded_example =
    run-new-Bounded requests boot fresh new-boot
      (Call.hello none 3 1000 ∷ Call.request first_key 1 start_7 2000 true ∷ later)

abbrev meanwhile : List (Call Request)
meanwhile =
    Call.disconnect 3 2500
    ∷ Call.timer 2000000000000
    ∷ Call.hello (some first_key) 4 2000000000001
    ∷ Call.request first_key 2 pause_7 2000000000002 true
    ∷ Call.outcome first_key 2 (OperationState.completed []) 2000000000003
    ∷ []

accepted_until_completed_example :
    status first_key 1 (run requests meanwhile once) ≡ Admission.known OperationState.accepted
unfolding spares
accepted_until_completed_example =
    accepted_until_completed requests boot fresh new-boot hello first_key 1 start_7 2000 true
      first_admitted meanwhile (refl, (refl, (refl, (refl, (ground arith, tt)))))

retry_answered_example :
    (admit_with_gate requests first_key 1 pause_7 2000000000004 false
      (run requests meanwhile once)).0
    ≡ (if requests.same (requests.normalized start_7) (requests.normalized pause_7)
        then Admission.known OperationState.accepted
        else Admission.conflict)
unfolding spares
retry_answered_example =
    retry_answered requests boot fresh new-boot hello first_key 1 start_7 2000 true first_admitted
      meanwhile (refl, (refl, (refl, (refl, (ground arith, tt))))) pause_7 2000000000004 false
