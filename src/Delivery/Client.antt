-- ===== src/Delivery/Client.antt =====
-- apps/lab-runtime/src/server/coordination.rs: the ClientDelivery. A message is any type `A`; the
-- identities of requests are any type `I` with a lawful equality, and `answers` is what the JSON of a
-- reply finishes: the msg_id of a message other than an accepted operation. `writing` says whether
-- the transport holds a reply (true) or an event (false) that it has taken and not yet written.
use lab_runtime.Base.{
  ℕ, ◌+◌, ◌-◌, Bool, true, false, ◌&&◌, ◌||◌, Option, none, some, List, [], ◌∷◌, ◌++◌, ◌==◌,
  PartialEq, ltb, leb, if◌then◌else◌, length,
}

abbrev pub client_in : ℕ
client_in = 8

abbrev pub client_out : ℕ
client_out = 8

abbrev pub client_events : ℕ
client_events = 16

pub record ClientDelivery (A I : Type 0) : Type 0 where
  pub replied_hello : Bool
  pub replies : List A
  pub events : List A
  pub last_reply : Bool
  pub pending : ℕ
  pub pending_ids : List I
  pub rejection : Option A
  pub closing : Bool

-- `usize::from(writing == Some(kind))`.
unfoldable pub held : Bool → Option Bool → ℕ
held kind none = 0
held true (some w) = if w then 1 else 0
held false (some w) = if w then 0 else 1

unfoldable pub is_empty : {I : Type 0} → List I → Bool
is_empty [] = true
is_empty (x ∷ xs) = false

module _ {A I : Type 0} where
  unfoldable pub new_client : ClientDelivery A I
  new_client = record {
    replied_hello = false;
    replies = [];
    events = [];
    last_reply = false;
    pending = 0;
    pending_ids = [];
    rejection = none;
    closing = false;
  }

  unfoldable pub pending_full : ClientDelivery A I → Bool
  pending_full c = leb client_in c.pending

  unfoldable pub reply_queued : Option Bool → ClientDelivery A I → ℕ
  unfolding held
  reply_queued writing c = length c.replies + held true writing

  unfoldable pub event_queued : Option Bool → ClientDelivery A I → ℕ
  unfolding held
  event_queued writing c = length c.events + held false writing

  unfoldable pub reject_and_close : A → ClientDelivery A I → ClientDelivery A I
  reject_and_close message c = record c { rejection = some message; closing = true }

  unfoldable pub stage_rejection : Option Bool → ClientDelivery A I → ClientDelivery A I
  unfolding is_empty reply_queued
  stage_rejection writing c =
      if is_empty c.pending_ids && ltb (reply_queued writing c) client_out
      then elim c.rejection [
        | none ↦ c
        | some message ↦ record c { rejection = none; replies = c.replies ++ message ∷ [] }
      ]
      else c

  unfoldable pub push_event : A → Option Bool → ClientDelivery A I → Bool × ClientDelivery A I
  unfolding event_queued
  push_event message writing c =
      if leb client_events (event_queued writing c)
      then (false, c)
      else (true, record c { events = c.events ++ message ∷ [] })

  -- The oldest event, or the oldest reply and then the oldest event.
  unfoldable pub take_event : ClientDelivery A I → Option (A × Bool) × ClientDelivery A I
  take_event c = elim c.events [
    | [] ↦ (none, c)
    | message ∷ rest ↦ (some (message, false), record c { events = rest })
  ]

  unfoldable pub take_reply : ClientDelivery A I → Option (A × Bool) × ClientDelivery A I
  unfolding take_event
  take_reply c = elim c.replies [
    | [] ↦ take_event c
    | message ∷ rest ↦ (some (message, true), record c { replies = rest })
  ]

  unfoldable pub has_event : ClientDelivery A I → Bool
  has_event c = leb 1 (length c.events)

  unfoldable pub next_message : ClientDelivery A I → Option (A × Bool) × ClientDelivery A I
  unfolding has_event take_reply
  next_message c = if c.last_reply && has_event c then take_event c else take_reply c

  unfoldable pub message_written : Bool → ClientDelivery A I → ClientDelivery A I
  message_written reply c = record c { last_reply = reply }

  unfoldable pub close : ClientDelivery A I → ClientDelivery A I
  close c = record c { closing = true }

module _ {I : Type 0} ⦃same : PartialEq I⦄ where
  unfoldable pub request_is_in : I → List I → Bool
  request_is_in id [] = false
  request_is_in id (x ∷ xs) = let later = request_is_in id xs in if x == id then true else later

  unfoldable pub remove_request : I → List I → List I
  remove_request id [] = []
  remove_request id (x ∷ xs) = let later = remove_request id xs in if x == id then xs else x ∷ later

  unfoldable pub finish_request : Option I → List I → List I
  unfolding remove_request
  finish_request none ids = ids
  finish_request (some id) ids = remove_request id ids

module _ {A I : Type 0} ⦃same : PartialEq I⦄ where
  unfoldable pub request_is_in_flight : I → ClientDelivery A I → Bool
  unfolding request_is_in
  request_is_in_flight id c = request_is_in id c.pending_ids

  unfoldable pub request_admitted : I → ClientDelivery A I → ClientDelivery A I
  unfolding request_is_in
  request_admitted id c = record c {
    pending_ids = if request_is_in id c.pending_ids then c.pending_ids else id ∷ c.pending_ids;
    pending = c.pending + 1;
  }

  unfoldable pub push_reply :
      (A → Option I)
      → A
      → Bool
      → Bool
      → Option Bool
      → ClientDelivery A I
      → Bool × ClientDelivery A I
  unfolding reply_queued finish_request
  push_reply answers message consumed hello writing c =
      if leb client_out (reply_queued writing c) then (false, c) else (
        true,
        record c {
          pending_ids = finish_request (answers message) c.pending_ids;
          replied_hello = c.replied_hello || hello;
          replies = c.replies ++ message ∷ [];
          pending = if consumed then c.pending - 1 else c.pending;
        },
      )
