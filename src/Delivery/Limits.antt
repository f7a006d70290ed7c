-- ===== src/Delivery/Limits.antt =====
-- apps/lab-runtime/src/server/coordination.rs: the queues of a connection stay within their limits,
-- and neither queue starves the other.
use lab_runtime.Base.{
  ◌≤◌, ◌≡◌, ◌⊎◌, Bool, false, Option, none, some, is_none, List, [], ◌∷◌, PartialEq, if◌then◌else◌,
  length-append, arith, inl, inr, Bool-cases, Option-cases,
}
use lab_runtime.Delivery.Client.{
  ClientDelivery, client_out, client_events, new_client, held, reply_queued, event_queued,
  reject_and_close, stage_rejection, push_event, take_event, take_reply, has_event, next_message,
  message_written, close, request_admitted, push_reply,
}

-- A connection with the kind of the message that its transport is writing.
pub record Peer (A I : Type 0) : Type 0 where
  pub client : ClientDelivery A I
  pub writing : Option Bool

-- The calls of a transport. It takes a message only while it writes none.
pub data Step (A I : Type 0) : Type 0 where
  reply : A → Bool → Bool → Step A I
  event reject : A → Step A I
  admitted : I → Step A I
  stage take written closed : Step A I

module _ {A I : Type 0} where
  unfoldable pub take_next : Peer A I → Peer A I
  unfolding next_message
  take_next p =
      let (message, c) = next_message p.client in
      record { client = c; writing = elim message [ none ↦ none | some (m, kind) ↦ some kind ] }

  unfoldable pub finish_write : Peer A I → Peer A I
  unfolding message_written
  finish_write p = elim p.writing [
    | none ↦ p
    | some kind ↦ record { client = message_written kind p.client; writing = none }
  ]

  -- The limits of the queues, the message in writing included.
  pub record Within (p : Peer A I) : Type 0 where
    pub replies : reply_queued p.writing p.client ≤ client_out
    pub events : event_queued p.writing p.client ≤ client_events

  take_next-Within : (p : Peer A I) → p.writing ≡ none → Within p → Within (take_next p)
  unfolding take_next next_message take_reply take_event reply_queued event_queued held
  take_next-Within p idle w = record { replies = ground arith; events = ground arith }

  finish_write-Within : (p : Peer A I) → Within p → Within (finish_write p)
  unfolding finish_write message_written reply_queued event_queued held
  finish_write-Within p w = record { replies = ground arith; events = ground arith }

  push_event-Within :
      (p : Peer A I) (m : A)
      → Within p
      → Within (record p { client = (push_event m p.writing p.client).1 })
  unfolding push_event reply_queued event_queued
  push_event-Within p m w = record {
    replies = ground arith;
    events = ground (arith, length-append p.client.events (m ∷ []));
  }

  stage-Within :
      (p : Peer A I) → Within p → Within (record p { client = stage_rejection p.writing p.client })
  unfolding stage_rejection reply_queued event_queued
  stage-Within p w = elim (Option-cases p.client.rejection) [
    | inl nothing ↦ record { replies = ground arith; events = ground arith }
    | inr (m, staged) ↦ record {
      replies = ground (arith, length-append p.client.replies (m ∷ []));
      events = ground arith;
    }
  ]

  -- While an event waits, it is the next message or, once that one is written, the one after it: no
  -- two replies pass it.
  pub event_waits_once :
      (c : ClientDelivery A I) (m : A) (rest : List A)
      → c.events ≡ m ∷ rest
      → (x : A) (kind : Bool) → (next_message c).0 ≡ some (x, kind)
      → ((next_message c).0 ≡ some (m, false))
        ⊎ ((next_message (message_written kind (next_message c).1)).0 ≡ some (m, false))
  unfolding next_message take_reply take_event has_event message_written
  event_waits_once c m rest h x kind taken = ground arith

-- One call, and any sequence of calls; a transport that writes takes nothing.
module _ {A I : Type 0} ⦃same : PartialEq I⦄ (answers : A → Option I) where
  unfoldable pub act : Step A I → Peer A I → Peer A I
  act (Step.reply m consumed hello) p = record p {
    client = (push_reply answers m consumed hello p.writing p.client).1;
  }
  act (Step.event m) p = record p { client = (push_event m p.writing p.client).1 }
  act (Step.reject m) p = record p { client = reject_and_close m p.client }
  act (Step.admitted id) p = record p { client = request_admitted id p.client }
  act Step.stage p = record p { client = stage_rejection p.writing p.client }
  act Step.take p = if is_none p.writing then take_next p else p
  act Step.written p = finish_write p
  act Step.closed p = record p { client = close p.client }

  unfoldable pub acts : List (Step A I) → Peer A I → Peer A I
  acts [] p = p
  acts (s ∷ ss) p = acts ss (act s p)

  push_reply-Within :
      (p : Peer A I) (m : A) (consumed hello : Bool)
      → Within p
      → Within (record p { client = (push_reply answers m consumed hello p.writing p.client).1 })
  unfolding push_reply reply_queued event_queued
  push_reply-Within p m consumed hello w = record {
    replies = ground (arith, length-append p.client.replies (m ∷ []));
    events = ground arith;
  }

  act-Within : (s : Step A I) (p : Peer A I) → Within p → Within (act s p)
  unfolding act reject_and_close request_admitted close reply_queued event_queued
  act-Within (Step.reply m consumed hello) p w = push_reply-Within p m consumed hello w
  act-Within (Step.event m) p w = push_event-Within p m w
  act-Within (Step.reject m) p w = record { replies = w.replies; events = w.events }
  act-Within (Step.admitted id) p w = record { replies = w.replies; events = w.events }
  act-Within Step.stage p w = stage-Within p w
  act-Within Step.take p w = elim (Bool-cases (is_none p.writing)) [
    | inl idle ↦ rw (act, idle) (take_next-Within p (ground (arith, idle)) w)
    | inr busy ↦ rw (act, busy) w
  ]
  act-Within Step.written p w = finish_write-Within p w
  act-Within Step.closed p w = record { replies = w.replies; events = w.events }

  acts-Within : (ss : List (Step A I)) (p : Peer A I) → Within p → Within (acts ss p)
  unfolding acts
  acts-Within [] p w = w
  acts-Within (s ∷ ss) p w = acts-Within ss (act s p) (act-Within s p w)

  -- After any calls on a new connection at most 8 replies and 16 events are retained, the message in
  -- writing included.
  pub new_client-Within :
      (ss : List (Step A I)) → Within (acts ss (record { client = new_client; writing = none }))
  unfolding new_client reply_queued event_queued held
  new_client-Within ss =
      acts-Within ss (record { client = new_client; writing = none })
        (record { replies = omega arith; events = omega arith })
