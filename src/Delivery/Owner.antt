-- ===== src/Delivery/Owner.antt =====
-- apps/lab-runtime/src/server/coordination.rs: the OwnerDelivery. A request is any type `R`; a BTreeMap
-- is its entries in ascending key order, a BTreeSet its ascending list.
use lab_runtime.Base.{
  ℕ, zero, suc, ◌+◌, ◌%◌, min, Bool, not, ◌==◌, u64_eq, ltb, if◌then◌else◌, Option, none, some,
  List, [], ◌∷◌, ◌++◌, length, pop_front, select,
}
use lab_runtime.Delivery.Connections.{insert_id, contains_id, remove_id}
use lab_runtime.Delivery.Client.{client_in}

pub record OwnerDelivery (R : Type 0) : Type 0 where
  pub queued : List (ℕ × List R)
  pub closing : List ℕ
  pub close_sent : List ℕ
  pub rotation : ℕ

unfoldable pub id_at : List ℕ → ℕ → Option ℕ
id_at [] i = none
id_at (x ∷ xs) zero = some x
id_at (x ∷ xs) (suc i) = id_at xs i

module _ {R : Type 0} where
  unfoldable pub keys : List (ℕ × List R) → List ℕ
  keys [] = []
  keys ((k, q) ∷ m) = k ∷ keys m

  unfoldable pub queue_of : ℕ → List (ℕ × List R) → List R
  queue_of id [] = []
  queue_of id ((k, q) ∷ m) = let rest = queue_of id m in if k == id then q else rest

  unfoldable pub pop_queue : ℕ → List (ℕ × List R) → List (ℕ × List R)
  pop_queue id [] = []
  pop_queue id ((k, q) ∷ m) =
      let rest = pop_queue id m in if k == id then (k, pop_front q) ∷ m else (k, q) ∷ rest

  unfoldable pub remove_queue : ℕ → List (ℕ × List R) → List (ℕ × List R)
  remove_queue id [] = []
  remove_queue id ((k, q) ∷ m) =
      let rest = remove_queue id m in if k == id then m else (k, q) ∷ rest

  unfoldable pub push_request : ℕ → R → List (ℕ × List R) → List (ℕ × List R)
  push_request id r [] = (id, r ∷ []) ∷ []
  push_request id r ((k, q) ∷ m) =
      let later = push_request id r m in
      if id == k
      then (k, if ltb (length q) client_in then q ++ r ∷ [] else q) ∷ m
      else if ltb id k
      then (id, r ∷ []) ∷ (k, q) ∷ m
      else (k, q) ∷ later

  unfoldable pub new_owner : OwnerDelivery R
  new_owner = record { queued = []; closing = []; close_sent = []; rotation = 0 }

  unfoldable pub admit_request : ℕ → R → OwnerDelivery R → OwnerDelivery R
  admit_request id r o =
      if contains_id id o.closing then o else record o { queued = push_request id r o.queued }

  -- The request that a connection's turn takes, if it has one.
  unfoldable pub first_of : ℕ → List R → List (ℕ × R)
  first_of id [] = []
  first_of id (r ∷ rs) = (id, r) ∷ []

  unfoldable pub taken : Option ℕ → List (ℕ × List R) → List (ℕ × R)
  taken none m = []
  taken (some id) m = first_of id (queue_of id m)

  unfoldable pub left_after : Option ℕ → List (ℕ × List R) → List (ℕ × List R)
  left_after none m = m
  left_after (some id) m = pop_queue id m

  -- `n` turns from index `i` on.
  unfoldable pub turns : ℕ → ℕ → List ℕ → List (ℕ × List R) → List (ℕ × R) × List (ℕ × List R)
  turns zero i ids m = ([], m)
  turns (suc n) i ids m =
      let now = id_at ids (i % length ids) in
      let rest = turns n (suc i) ids (left_after now m) in (taken now m ++ rest.0, rest.1)

  unfoldable pub next_of : List ℕ → OwnerDelivery R → List (ℕ × R) × OwnerDelivery R
  next_of [] o = ([], o)
  next_of (id ∷ ids) o =
      let r = turns (min (length (id ∷ ids)) 4) o.rotation (id ∷ ids) o.queued in
      (r.0, record o { queued = r.1; rotation = (o.rotation + 1) % length (id ∷ ids) })

  unfoldable pub next_requests : OwnerDelivery R → List (ℕ × R) × OwnerDelivery R
  next_requests o = next_of (keys o.queued) o

  -- `BTreeSet::insert` and `BTreeSet::remove` tell whether they changed the set.
  unfoldable pub begin_close : ℕ → OwnerDelivery R → Bool × OwnerDelivery R
  begin_close id o = (
    not (contains_id id o.closing),
    record o { queued = remove_queue id o.queued; closing = insert_id id o.closing },
  )

  unfoldable pub network_detached : ℕ → OwnerDelivery R → Bool × OwnerDelivery R
  network_detached id o = (
    not (contains_id id o.closing),
    record o {
      queued = remove_queue id o.queued;
      close_sent = remove_id id o.close_sent;
      closing = remove_id id o.closing;
    },
  )

  unfoldable pub unsent_closes : OwnerDelivery R → List ℕ
  unsent_closes o = select (λ id. not (contains_id id o.close_sent)) o.closing

  unfoldable pub mark_close_sent : ℕ → OwnerDelivery R → OwnerDelivery R
  mark_close_sent id o = record o {
    queued = remove_queue id o.queued;
    close_sent = insert_id id o.close_sent;
  }
