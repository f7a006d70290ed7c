-- ===== src/Delivery/Examples.antt =====
-- apps/lab-runtime/src/server/coordination.rs: connections that come and go, and a client with a
-- reply and an event.
use lab_runtime.Base.{
  length, ℕ, ◌<◌, ◌≡◌, ◌⊎◌, refl, true, false, Option, none, some, List, [], ◌∷◌, ok, u64_eq,
}
use lab_runtime.Delivery.Connections.{
  contains_id, insert_id, remove_id, no_connections, admit_connection, begin_detach,
  detach_delivered, Event, happen, history,
}
use lab_runtime.Delivery.Active.{Sound}
use lab_runtime.Delivery.Identities.{connections-Sound, identity_never_reused}
use lab_runtime.Delivery.Client.{ClientDelivery, new_client, next_message, message_written}
use lab_runtime.Delivery.Limits.{Step, acts, Within, event_waits_once, new_client-Within}
use lab_runtime.Delivery.Owner.{
  OwnerDelivery, next_requests, next_of, turns, keys, id_at, taken, first_of, queue_of, left_after,
  pop_queue,
}
use lab_runtime.Delivery.Fairness.{Given, rounds, waiting_request_served}

abbrev two_and_one_gone : List Event
two_and_one_gone = Event.admission ∷ Event.admission ∷ Event.detaching 1 ∷ Event.delivered ∷ []

first_admitted : (admit_connection no_connections).0 ≡ ok 1
unfolding admit_connection
first_admitted = refl

later_admitted :
    (admit_connection (history two_and_one_gone (admit_connection no_connections).1)).0 ≡ ok 4
unfolding admit_connection history happen begin_detach detach_delivered contains_id insert_id
    remove_id
later_admitted = refl

connections-Sound_example : Sound (history two_and_one_gone no_connections)
connections-Sound_example = connections-Sound two_and_one_gone

identity_never_reused_example : 1 < 4
identity_never_reused_example =
    identity_never_reused no_connections 1 4 two_and_one_gone first_admitted later_admitted

-- Messages and request identities are numbers here; every message finishes the request 7.
abbrev answers : ℕ → Option ℕ
answers n = some 7

abbrev calls : List (Step ℕ ℕ)
calls =
    Step.admitted 7
    ∷ Step.reply 10 true true
    ∷ Step.event 20
    ∷ Step.take
    ∷ Step.written
    ∷ Step.take
    ∷ []

new_client-Within_example :
    Within (acts answers calls (record { client = new_client; writing = none }))
new_client-Within_example = new_client-Within answers calls

abbrev waiting : ClientDelivery ℕ ℕ
waiting = record {
  replied_hello = true;
  replies = 10 ∷ 11 ∷ [];
  events = 20 ∷ [];
  last_reply = false;
  pending = 0;
  pending_ids = [];
  rejection = none;
  closing = false;
}

reply_first : (next_message waiting).0 ≡ some (10, true)
unfolding next_message
reply_first = refl

event_waits_once_example :
    ((next_message waiting).0 ≡ some (20, false))
    ⊎ ((next_message (message_written true (next_message waiting).1)).0 ≡ some (20, false))
event_waits_once_example = event_waits_once waiting 20 [] refl 10 true reply_first

-- Five connections with two requests each; the fifth waits for the second call.
abbrev five_waiting : OwnerDelivery ℕ
five_waiting = record {
  queued =
      (1, 10 ∷ 11 ∷ [])
      ∷ (2, 20 ∷ 21 ∷ [])
      ∷ (3, 30 ∷ 31 ∷ [])
      ∷ (4, 40 ∷ 41 ∷ [])
      ∷ (5, 50 ∷ 51 ∷ [])
      ∷ [];
  closing = [];
  close_sent = [];
  rotation = 0;
}

first_four : (next_requests five_waiting).0 ≡ (1, 10) ∷ (2, 20) ∷ (3, 30) ∷ (4, 40) ∷ []
unfolding next_requests next_of turns keys id_at taken first_of queue_of left_after pop_queue
first_four = refl

waiting_request_served_example :
    (k : ℕ) × (k < length (keys five_waiting.queued))
    × Given (5, 50) (next_requests (rounds k five_waiting)).0
unfolding queue_of
waiting_request_served_example = waiting_request_served five_waiting 5 50 (51 ∷ []) refl
