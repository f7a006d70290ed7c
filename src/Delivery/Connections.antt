-- ===== src/Delivery/Connections.antt =====
-- apps/lab-runtime/src/server/coordination.rs: the ConnectionCoordinator. A BTreeSet of identities is
-- their ascending list.
use lab_runtime.Base.{
  ℕ, ◌+◌, Bool, true, false, none, some, List, [], ◌∷◌, ◌++◌, ◌==◌, u64_eq, ltb, leb, if◌then◌else◌,
  length, Result, ok, err, checked_add,
}

abbrev pub max_clients : ℕ
max_clients = 8

pub data AdmissionError : Type 0 where
  capacity exhausted : AdmissionError

pub record ConnectionCoordinator : Type 0 where
  pub next_id : ℕ
  pub active : List ℕ
  pub pending_detach : List ℕ

unfoldable pub insert_id : ℕ → List ℕ → List ℕ
insert_id id [] = id ∷ []
insert_id id (x ∷ xs) =
    let later = insert_id id xs in
    if id == x then x ∷ xs else if ltb id x then id ∷ x ∷ xs else x ∷ later

unfoldable pub contains_id : ℕ → List ℕ → Bool
contains_id id [] = false
contains_id id (x ∷ xs) = let later = contains_id id xs in if x == id then true else later

unfoldable pub remove_id : ℕ → List ℕ → List ℕ
remove_id id [] = []
remove_id id (x ∷ xs) = let later = remove_id id xs in if x == id then xs else x ∷ later

abbrev pub no_connections : ConnectionCoordinator
no_connections = record { next_id = 1; active = []; pending_detach = [] }

unfoldable pub capacity_full : ConnectionCoordinator → Bool
capacity_full c = leb max_clients (length c.active + length c.pending_detach)

unfoldable pub admit_connection :
    ConnectionCoordinator → Result AdmissionError ℕ × ConnectionCoordinator
unfolding checked_add capacity_full
admit_connection c =
    if capacity_full c then (err AdmissionError.capacity, c) else elim (checked_add c.next_id 1) [
      | none ↦ (err AdmissionError.exhausted, c)
      | some next ↦
          (ok c.next_id, record c { next_id = next; active = insert_id c.next_id c.active })
    ]

unfoldable pub begin_detach : ℕ → ConnectionCoordinator → Bool × ConnectionCoordinator
begin_detach id c =
    if contains_id id c.active
    then (
      true,
      record c { active = remove_id id c.active; pending_detach = c.pending_detach ++ id ∷ [] },
    )
    else (false, c)

unfoldable pub drop_front : List ℕ → List ℕ
drop_front [] = []
drop_front (x ∷ xs) = xs

unfoldable pub detach_delivered : ConnectionCoordinator → ConnectionCoordinator
unfolding drop_front
detach_delivered c = record c { pending_detach = drop_front c.pending_detach }

pub data Event : Type 0 where
  admission delivered : Event
  detaching : ℕ → Event

unfoldable pub happen : Event → ConnectionCoordinator → ConnectionCoordinator
happen Event.admission c = (admit_connection c).1
happen Event.delivered c = detach_delivered c
happen (Event.detaching id) c = (begin_detach id c).1

unfoldable pub history : List Event → ConnectionCoordinator → ConnectionCoordinator
history [] c = c
history (e ∷ es) c = history es (happen e c)
