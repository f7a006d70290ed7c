-- ===== src/Delivery/Identities.antt =====
-- apps/lab-runtime/src/server/coordination.rs: connection identities are fresh, and connections are
-- bounded.
use lab_runtime.Base.{
  ℕ, suc, ◌+◌, ◌≤◌, ◌<◌, ◌≡◌, false, some, List, [], ◌∷◌, u64_eq, length, length-append, ok,
  checked_add, arith, Every, Bool-cases, Option-cases, inl, inr,
}
use lab_runtime.Delivery.Connections.{
  ConnectionCoordinator, max_clients, contains_id, no_connections, capacity_full, admit_connection,
  begin_detach, drop_front, detach_delivered, Event, happen, history,
}
use lab_runtime.Delivery.Active.{
  Rising, Sound, insert_id-Rising, length-insert_id, remove_id-Rising, length-remove_id,
  contains_id-bound, below_append, below_later,
}

following_number : (n m : ℕ) → checked_add n 1 ≡ some m → m ≡ suc n
unfolding checked_add
following_number n m h = ground arith

room_left :
    (c : ConnectionCoordinator)
    → capacity_full c ≡ false
    → length c.active + length c.pending_detach < max_clients
unfolding capacity_full
room_left c h = ground arith

admission-Sound : (c : ConnectionCoordinator) → Sound c → Sound (admit_connection c).1
unfolding admit_connection
admission-Sound c s = elim (Bool-cases (capacity_full c)) [
  | inl full ↦ rw (admit_connection, full) s
  | inr room ↦
      rw (admit_connection, room)
        (elim (Option-cases (checked_add c.next_id 1)) [
          | inl last ↦ rw last s
          | inr (next, more) ↦
              let following : next ≡ suc c.next_id = following_number c.next_id next more in
              let free = room_left c room in
              rw more (record {
                active = rw following (insert_id-Rising 1 c.next_id c.active s.active);
                detaching = rw following (below_later c.next_id c.pending_detach s.detaching);
                bounded = omega (arith, length-insert_id c.next_id c.active, free);
              })
        ])
]

begin_detach-Sound : (id : ℕ) (c : ConnectionCoordinator) → Sound c → Sound (begin_detach id c).1
unfolding begin_detach
begin_detach-Sound id c s = elim (Bool-cases (contains_id id c.active)) [
  | inl known ↦
      rw (begin_detach, known)
        (record {
          active = remove_id-Rising id 1 c.next_id c.active s.active;
          detaching =
              below_append id c.next_id c.pending_detach
                (contains_id-bound id 1 c.next_id c.active s.active known) s.detaching;
          bounded = omega (
            arith,
            length-remove_id id c.active known,
            length-append c.pending_detach (id ∷ []),
            s.bounded,
          );
        })
  | inr unknown ↦ rw (begin_detach, unknown) s
]

front-bounded : (xs : List ℕ) → length (drop_front xs) ≤ length xs
unfolding drop_front
front-bounded [] = omega arith
front-bounded (x ∷ xs) = omega arith

front-Every : (hi : ℕ) (xs : List ℕ) → Every (λ n. n < hi) xs → Every (λ n. n < hi) (drop_front xs)
unfolding drop_front
front-Every hi [] each = tt
front-Every hi (x ∷ xs) each = each.1

detach_delivered-Sound : (c : ConnectionCoordinator) → Sound c → Sound (detach_delivered c)
unfolding detach_delivered
detach_delivered-Sound c s = record {
  active = s.active;
  detaching = front-Every c.next_id c.pending_detach s.detaching;
  bounded = omega (arith, front-bounded c.pending_detach, s.bounded);
}

happen-Sound : (e : Event) (c : ConnectionCoordinator) → Sound c → Sound (happen e c)
unfolding happen
happen-Sound Event.admission c s = admission-Sound c s
happen-Sound Event.delivered c s = detach_delivered-Sound c s
happen-Sound (Event.detaching id) c s = begin_detach-Sound id c s

history-Sound : (es : List Event) (c : ConnectionCoordinator) → Sound c → Sound (history es c)
unfolding history
history-Sound [] c s = s
history-Sound (e ∷ es) c s = history-Sound es (happen e c) (happen-Sound e c s)

empty-Sound : Sound no_connections
unfolding Rising
empty-Sound = record { active = omega arith; detaching = tt; bounded = omega arith }

-- After any events the active identities are different, all identities in use have been issued, and
-- the active connections with those whose detach is undelivered are at most 8.
pub connections-Sound : (es : List Event) → Sound (history es no_connections)
connections-Sound es = history-Sound es no_connections empty-Sound

happen_next_id : (e : Event) (c : ConnectionCoordinator) → c.next_id ≤ (happen e c).next_id
unfolding happen admit_connection begin_detach detach_delivered checked_add
happen_next_id Event.admission c = ground arith
happen_next_id Event.delivered c = omega arith
happen_next_id (Event.detaching id) c = ground arith

history_next_id : (es : List Event) (c : ConnectionCoordinator) → c.next_id ≤ (history es c).next_id
unfolding history
history_next_id [] c = omega arith
history_next_id (e ∷ es) c = omega (arith, happen_next_id e c, history_next_id es (happen e c))

admitted_next :
    (c : ConnectionCoordinator) (i : ℕ)
    → (admit_connection c).0 ≡ ok i
    → (i ≡ c.next_id) × (i < (admit_connection c).1.next_id)
unfolding admit_connection checked_add
admitted_next c i h = (ground arith, ground arith)

-- A later connection has a larger identity: none is used twice, also after its connection is gone.
pub identity_never_reused :
    (c : ConnectionCoordinator) (i j : ℕ) (es : List Event)
    → (admit_connection c).0 ≡ ok i
    → (admit_connection (history es (admit_connection c).1)).0 ≡ ok j
    → i < j
identity_never_reused c i j es first second =
    let later = history es (admit_connection c).1 in
    omega (
      arith,
      (admitted_next c i first).1,
      history_next_id es (admit_connection c).1,
      (admitted_next later j second).0,
    )
