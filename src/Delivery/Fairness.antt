-- ===== src/Delivery/Fairness.antt =====
-- apps/lab-runtime/src/server/coordination.rs: the rotation over the connections' queues.
use native.Mathlib.Nat.{mod-lt, mod-eq_of_lt, add-mod_right, mod-add-mod}
use lab_runtime.Base.{
  ℕ, zero, suc, ◌+◌, ◌-◌, ◌%◌, ◌≤◌, ◌<◌, min, ◌≡◌, ◌⊎◌, inl, inr, refl, sym, ap, ◌∙◌, true, false,
  leb, ◌==◌, u64_eq, Option, none, some, List, [], ◌∷◌, ◌++◌, length, arith, Bool-cases,
}
use lab_runtime.Delivery.Owner.{
  OwnerDelivery, id_at, keys, queue_of, pop_queue, first_of, taken, left_after, turns, next_of,
  next_requests,
}

-- `y` is one of the elements.
pub record Given {A : Type 0} (y : A) (ys : List A) : Type 0 where
  pub before : List A
  pub behind : List A
  pub split : ys ≡ before ++ y ∷ behind

Given-after : {A : Type 0} (y : A) (xs ys : List A) → Given y ys → Given y (xs ++ ys)
Given-after y [] ys g = g
Given-after y (x ∷ xs) ys g =
    let h = Given-after y xs ys g in
    record { before = x ∷ h.before; behind = h.behind; split = ap (λ zs. x ∷ zs) h.split }

-- The rotation reaches every place.
reaches : (r p n : ℕ) → p < n → (d : ℕ) × (d < n) × ((r + d) % n ≡ p)
reaches r p n less = elim (Bool-cases (leb (r % n) p)) [
  | inl e ↦ (
    p - r % n,
    ground (arith, less),
    sym (mod-add-mod r n (p - r % n))
        ∙ ap (λ (k : ℕ). k % n) (ground (arith, e))
        ∙ mod-eq_of_lt less,
  )
  | inr e ↦
      let low : r % n < n = mod-lt r (omega (arith, less)) in
      (
        p + n - r % n,
        ground (arith, e, less, low),
        sym (mod-add-mod r n (p + n - r % n))
            ∙ ap (λ (k : ℕ). k % n) (ground (arith, e, low))
            ∙ add-mod_right p n
            ∙ mod-eq_of_lt less,
      )
]

module _ {R : Type 0} where
  keys-pop_queue : (id : ℕ) (m : List (ℕ × List R)) → keys (pop_queue id m) ≡ keys m
  unfolding keys pop_queue
  keys-pop_queue id [] = refl
  keys-pop_queue id ((k, q) ∷ m) = elim (Bool-cases (k == id)) [
    | inl e ↦ rw e refl
    | inr e ↦ rw e (ap (λ xs. k ∷ xs) (keys-pop_queue id m))
  ]

  keys-left_after : (now : Option ℕ) (m : List (ℕ × List R)) → keys (left_after now m) ≡ keys m
  unfolding left_after
  keys-left_after none m = refl
  keys-left_after (some id) m = keys-pop_queue id m

  keys-turns : (n i : ℕ) (ids : List ℕ) (m : List (ℕ × List R)) → keys (turns n i ids m).1 ≡ keys m
  unfolding turns
  keys-turns zero i ids m = refl
  keys-turns (suc n) i ids m =
      keys-turns n (suc i) ids (left_after (id_at ids (i % length ids)) m)
      ∙ keys-left_after (id_at ids (i % length ids)) m

  other_queue :
      (j id : ℕ) (m : List (ℕ × List R))
      → (j == id) ≡ false
      → queue_of id (pop_queue j m) ≡ queue_of id m
  unfolding queue_of pop_queue
  other_queue j id [] apart = refl
  other_queue j id ((k, q) ∷ m) apart = elim (Bool-cases (k == j)) [
    | inl e ↦ let off : (k == id) ≡ false = ground (arith, e, apart) in rw (e, off) refl
    | inr e ↦ elim (Bool-cases (k == id)) [
      | inl f ↦ rw (e, f) refl
      | inr f ↦ rw (e, f) (other_queue j id m apart)
    ]
  ]

  taken_first :
      (j id : ℕ) (x : R) (xs : List R) (m : List (ℕ × List R))
      → (j == id) ≡ true
      → queue_of id m ≡ x ∷ xs
      → taken (some j) m ≡ (id, x) ∷ []
  unfolding taken first_of
  taken_first j id x xs m e h = let same : j ≡ id = ground (arith, e) in rw (same, h) refl

  turn_keeps :
      (now : Option ℕ) (id : ℕ) (x : R) (xs : List R) (m : List (ℕ × List R))
      → queue_of id m ≡ x ∷ xs
      → (taken now m ≡ (id, x) ∷ []) ⊎ (queue_of id (left_after now m) ≡ x ∷ xs)
  unfolding left_after
  turn_keeps none id x xs m h = inr h
  turn_keeps (some j) id x xs m h = elim (Bool-cases (j == id)) [
    | inl e ↦ inl (taken_first j id x xs m e h)
    | inr e ↦ inr (other_queue j id m e ∙ h)
  ]

  Given-here : (y : ℕ × R) (ys zs : List (ℕ × R)) → ys ≡ y ∷ [] → Given y (ys ++ zs)
  Given-here y ys zs e = record { before = []; behind = zs; split = ap (λ xs. xs ++ zs) e }

  -- Turns take the first request of a connection or leave it where it is.
  turns_keep :
      (n i id : ℕ) (ids : List ℕ) (x : R) (xs : List R) (m : List (ℕ × List R))
      → queue_of id m ≡ x ∷ xs
      → Given (id, x) (turns n i ids m).0 ⊎ (queue_of id (turns n i ids m).1 ≡ x ∷ xs)
  unfolding turns
  turns_keep zero i id ids x xs m h = inr h
  turns_keep (suc n) i id ids x xs m h =
      let now = id_at ids (i % length ids) in
      elim (turn_keeps now id x xs m h) [
        | inl e ↦
            inl (Given-here (id, x) (taken now m) (turns n (suc i) ids (left_after now m)).0 e)
        | inr e ↦ elim (turns_keep n (suc i) id ids x xs (left_after now m) e) [
          | inl g ↦
              inl (Given-after (id, x) (taken now m) (turns n (suc i) ids (left_after now m)).0 g)
          | inr f ↦ inr f
        ]
      ]

  turn_due :
      (n i id : ℕ) (ids : List ℕ) (x : R) (xs : List R) (m : List (ℕ × List R))
      → zero < n
      → id_at ids (i % length ids) ≡ some id
      → queue_of id m ≡ x ∷ xs
      → Given (id, x) (turns n i ids m).0
  unfolding turns
  turn_due zero i id ids x xs m more at h = absurd (omega (arith, more))
  turn_due (suc n) i id ids x xs m more at h =
      let now = id_at ids (i % length ids) in
      let own : (id == id) ≡ true = ground arith in
      Given-here (id, x) (taken now m) (turns n (suc i) ids (left_after now m)).0
        (ap (λ (o : Option ℕ). taken o m) at ∙ taken_first id id x xs m own h)

  -- The place of a connection with a request.
  place :
      (id : ℕ) (x : R) (xs : List R) (m : List (ℕ × List R))
      → queue_of id m ≡ x ∷ xs
      → (p : ℕ) × (p < length (keys m)) × (id_at (keys m) p ≡ some id)
  unfolding queue_of keys id_at
  place id x xs [] h = ground (arith, h)
  place id x xs ((k, q) ∷ m) h = elim (Bool-cases (k == id)) [
    | inl e ↦
        let same : k ≡ id = ground (arith, e) in (zero, omega arith, ap (λ (n : ℕ). some n) same)
    | inr e ↦
        let h' = rw e at h in
        let (p, less, at) = place id x xs m h' in (suc p, omega (arith, less), at)
  ]

  next_due :
      (ids : List ℕ) (o : OwnerDelivery R) (id : ℕ) (x : R) (xs : List R)
      → id_at ids (o.rotation % length ids) ≡ some id
      → queue_of id o.queued ≡ x ∷ xs
      → Given (id, x) (next_of ids o).0
  unfolding next_of id_at
  next_due [] o id x xs at h = ground (arith, at)
  next_due (k ∷ ids) o id x xs at h =
      turn_due (min (length (k ∷ ids)) 4) o.rotation id (k ∷ ids) x xs o.queued (omega arith) at h

  next_keeps :
      (ids : List ℕ) (o : OwnerDelivery R) (id : ℕ) (x : R) (xs : List R)
      → queue_of id o.queued ≡ x ∷ xs
      → Given (id, x) (next_of ids o).0 ⊎ (queue_of id (next_of ids o).1.queued ≡ x ∷ xs)
  unfolding next_of
  next_keeps [] o id x xs h = inr h
  next_keeps (k ∷ ids) o id x xs h =
      turns_keep (min (length (k ∷ ids)) 4) o.rotation id (k ∷ ids) x xs o.queued h

  keys-next_of :
      (ids : List ℕ) (o : OwnerDelivery R) → keys (next_of ids o).1.queued ≡ keys o.queued
  unfolding next_of
  keys-next_of [] o = refl
  keys-next_of (k ∷ ids) o = keys-turns (min (length (k ∷ ids)) 4) o.rotation (k ∷ ids) o.queued

  next_rotation :
      (ids : List ℕ) (o : OwnerDelivery R)
      → zero < length ids
      → (next_of ids o).1.rotation ≡ (o.rotation + 1) % length ids
  unfolding next_of
  next_rotation [] o more = absurd (omega (arith, more))
  next_rotation (k ∷ ids) o more = refl

  -- The state before the next call, after `k` calls in a row.
  unfoldable pub rounds : ℕ → OwnerDelivery R → OwnerDelivery R
  rounds zero o = o
  rounds (suc k) o = rounds k (next_requests o).1

  -- The same of `next_requests`, for the identities of the queues.
  requests_keep :
      (ids : List ℕ) (o : OwnerDelivery R) (id : ℕ) (x : R) (xs : List R)
      → keys o.queued ≡ ids
      → queue_of id o.queued ≡ x ∷ xs
      → Given (id, x) (next_requests o).0 ⊎ (queue_of id (next_requests o).1.queued ≡ x ∷ xs)
  unfolding next_requests
  requests_keep ids o id x xs ks h = rw ks (next_keeps ids o id x xs h)

  keys-next_requests :
      (ids : List ℕ) (o : OwnerDelivery R)
      → keys o.queued ≡ ids
      → keys (next_requests o).1.queued ≡ ids
  unfolding next_requests
  keys-next_requests ids o ks = keys-next_of (keys o.queued) o ∙ ks

  requests_rotation :
      (ids : List ℕ) (o : OwnerDelivery R)
      → keys o.queued ≡ ids
      → zero < length ids
      → (next_requests o).1.rotation ≡ (o.rotation + 1) % length ids
  unfolding next_requests
  requests_rotation ids o ks more = rw ks (next_rotation ids o more)

  requests_due :
      (ids : List ℕ) (o : OwnerDelivery R) (id : ℕ) (x : R) (xs : List R)
      → keys o.queued ≡ ids
      → id_at ids (o.rotation % length ids) ≡ some id
      → queue_of id o.queued ≡ x ∷ xs
      → Given (id, x) (next_requests o).0
  unfolding next_requests
  requests_due ids o id x xs ks at h = rw ks (next_due ids o id x xs at h)

  served :
      (d p id : ℕ) (x : R) (xs : List R) (ids : List ℕ) (o : OwnerDelivery R)
      → keys o.queued ≡ ids
      → p < length ids
      → id_at ids p ≡ some id
      → (o.rotation + d) % length ids ≡ p
      → queue_of id o.queued ≡ x ∷ xs
      → (k : ℕ) × (k ≤ d) × Given (id, x) (next_requests (rounds k o)).0
  unfolding rounds
  served zero p id x xs ids o ks less at due h =
      let now : o.rotation ≡ o.rotation + 0 = omega arith in
      let here : o.rotation % length ids ≡ p = ap (λ (r : ℕ). r % length ids) now ∙ due in
      (zero, omega arith, requests_due ids o id x xs ks (ap (id_at ids) here ∙ at) h)
  served (suc d) p id x xs ids o ks less at due h = elim (requests_keep ids o id x xs ks h) [
    | inl g ↦ (zero, omega arith, g)
    | inr f ↦
        let next : o.rotation + 1 + d ≡ o.rotation + suc d = omega arith in
        let soon : ((next_requests o).1.rotation + d) % length ids ≡ p =
          ap (λ (r : ℕ). (r + d) % length ids) (requests_rotation ids o ks (omega (arith, less)))
          ∙ mod-add-mod (o.rotation + 1) (length ids) d
          ∙ ap (λ (r : ℕ). r % length ids) next
          ∙ due in
        let (k, le, g) =
          served d p id x xs ids (next_requests o).1 (keys-next_requests ids o ks) less at soon f in
        (suc k, omega (arith, le), g)
  ]

  -- When `x` is the first request of connection `id`'s queue, the owner hands it out within as many
  -- calls of next_requests in a row as there are connections with a queue, wherever the rotation
  -- stands and however many requests the other connections have waiting.
  pub waiting_request_served :
      (o : OwnerDelivery R) (id : ℕ) (x : R) (xs : List R)
      → queue_of id o.queued ≡ x ∷ xs
      → (k : ℕ) × (k < length (keys o.queued)) × Given (id, x) (next_requests (rounds k o)).0
  waiting_request_served o id x xs h =
      let (p, less, at) = place id x xs o.queued h in
      let (d, short, due) = reaches o.rotation p (length (keys o.queued)) less in
      let (k, le, g) = served d p id x xs (keys o.queued) o refl less at due h in
      (k, omega (arith, short, le), g)
