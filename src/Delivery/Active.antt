-- ===== src/Delivery/Active.antt =====
-- apps/lab-runtime/src/server/coordination.rs: the set of active identities.
use lab_runtime.Base.{
  ℕ, suc, ◌+◌, ◌≤◌, ◌<◌, ◌≡◌, true, false, List, [], ◌∷◌, ◌++◌, ◌==◌, u64_eq, ltb, length, arith,
  Every, Bool-cases, inl, inr,
}
use lab_runtime.Delivery.Connections.{
  ConnectionCoordinator, max_clients, insert_id, contains_id, remove_id,
}

-- The identities of the set rise strictly from `lo` on and stay below `hi`.
unfoldable pub Rising : ℕ → List ℕ → ℕ → Type 0
Rising lo [] hi = lo ≤ hi
Rising lo (x ∷ xs) hi = (lo ≤ x) × Rising (suc x) xs hi

pub record Sound (c : ConnectionCoordinator) : Type 0 where
  pub active : Rising 1 c.active c.next_id
  pub detaching : Every (λ id. id < c.next_id) c.pending_detach
  pub bounded : length c.active + length c.pending_detach ≤ max_clients

Rising-bound : (x hi : ℕ) (xs : List ℕ) → Rising (suc x) xs hi → x < hi
unfolding Rising
Rising-bound x hi [] r = omega (arith, r)
Rising-bound x hi (y ∷ ys) r = omega (arith, r.0, Rising-bound y hi ys r.1)

pub insert_id-Rising :
    (lo hi : ℕ) (xs : List ℕ) → Rising lo xs hi → Rising lo (insert_id hi xs) (suc hi)
unfolding Rising insert_id
insert_id-Rising lo hi [] r = (r, omega arith)
insert_id-Rising lo hi (x ∷ xs) r =
    let above : x < hi = Rising-bound x hi xs r.1 in
    let apart : (hi == x) ≡ false = ground (arith, above) in
    let after : ltb hi x ≡ false = ground (arith, above) in
    rw apart (rw after (r.0, insert_id-Rising (suc x) hi xs r.1))

pub length-insert_id : (id : ℕ) (xs : List ℕ) → length (insert_id id xs) ≤ suc (length xs)
unfolding insert_id
length-insert_id id [] = omega arith
length-insert_id id (x ∷ xs) = ground (arith, length-insert_id id xs)

Rising-lower : (lo lo' hi : ℕ) (xs : List ℕ) → lo' ≤ lo → Rising lo xs hi → Rising lo' xs hi
unfolding Rising
Rising-lower lo lo' hi [] h r = omega (arith, h, r)
Rising-lower lo lo' hi (x ∷ xs) h r = (omega (arith, h, r.0), r.1)

pub remove_id-Rising :
    (id lo hi : ℕ) (xs : List ℕ) → Rising lo xs hi → Rising lo (remove_id id xs) hi
unfolding Rising remove_id
remove_id-Rising id lo hi [] r = r
remove_id-Rising id lo hi (x ∷ xs) r = elim (Bool-cases (x == id)) [
  | inl here ↦ rw here (Rising-lower (suc x) lo hi xs (omega (arith, r.0)) r.1)
  | inr past ↦ rw past (r.0, remove_id-Rising id (suc x) hi xs r.1)
]

pub length-remove_id :
    (id : ℕ) (xs : List ℕ) → contains_id id xs ≡ true → length (remove_id id xs) + 1 ≡ length xs
unfolding contains_id remove_id
length-remove_id id [] h = ground arith
length-remove_id id (x ∷ xs) h = elim (Bool-cases (x == id)) [
  | inl here ↦ ground arith
  | inr past ↦ ground (arith, length-remove_id id xs (ground arith))
]

pub contains_id-bound :
    (id lo hi : ℕ) (xs : List ℕ) → Rising lo xs hi → contains_id id xs ≡ true → id < hi
unfolding Rising contains_id
contains_id-bound id lo hi [] r h = ground arith
contains_id-bound id lo hi (x ∷ xs) r h = elim (Bool-cases (x == id)) [
  | inl here ↦ ground (arith, Rising-bound x hi xs r.1)
  | inr past ↦ contains_id-bound id (suc x) hi xs r.1 (ground arith)
]

pub below_append :
    (id hi : ℕ) (xs : List ℕ)
    → id < hi
    → Every (λ n. n < hi) xs
    → Every (λ n. n < hi) (xs ++ id ∷ [])
below_append id hi [] h each = (h, tt)
below_append id hi (x ∷ xs) h each = (each.0, below_append id hi xs h each.1)

pub below_later : (hi : ℕ) (xs : List ℕ) → Every (λ n. n < hi) xs → Every (λ n. n < suc hi) xs
below_later hi [] each = tt
below_later hi (x ∷ xs) each = (omega (arith, each.0), below_later hi xs each.1)
