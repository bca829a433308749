-- ===== src/Event/Service.antt =====
-- The handlers of `EventService` and the streams of `receive`
-- (djinn/crates/coordin8-event/src/service.rs).
use coordin.Common.{
  ℕ, String, Bool, true, false, not, Option, none, some, List, [], ◌∷◌, Result, ok, err,
  map_err as on_err, eqb, pure, ◌>>=◌, if◌then◌else◌, ◌==◌, ◌&&◌, ◌||◌,
}
use coordin.Common.Dict
use coordin.Common.Dict.{Dict}
use coordin.Error.{
  Error, Method, unavailable as unavailable_error, invalid_argument as invalid_argument_error,
  permission_denied as permission_denied_error, subscription_not_found, lease_not_found,
  subscription_expired, lease_expired, to_string,
}
use coordin.Status.{
  Code, Status, Handler, unavailable, not_found, failed_precondition, invalid_argument,
  permission_denied, internal, data_loss,
}
use coordin.Lease.{LeaseRecord}
use coordin.Lease.Leasing.{Leasing}
use coordin.Lease.Service.{Lease}
use coordin.Registry.Matcher.{parse_template, matches}
use coordin.Event.{EventRecord, DeliveryMode, durable, best_effort, is_durable, SubscriptionRecord}
use coordin.Event.Manager
use coordin.Event.Manager.{EventManager}

abbrev code_of : Error → Code
code_of (unavailable_error _) = unavailable
code_of (subscription_not_found _) = not_found
code_of (lease_not_found _) = not_found
code_of (subscription_expired _) = failed_precondition
code_of (lease_expired _) = failed_precondition
code_of (invalid_argument_error _) = invalid_argument
code_of (permission_denied_error _) = permission_denied
code_of _ = internal

unfoldable pub map_err : Error → Status
map_err e = record { code = code_of e; message = to_string e }

-- The proto message `Event`.
pub record Event : Type 0 where
  pub event_id : String
  pub source : String
  pub event_type : String
  pub seq_num : ℕ
  pub attrs : Dict String
  pub payload : List ℕ
  pub handback : List ℕ
  pub emitted_at : ℕ

unfoldable pub event_record_to_proto : EventRecord → List ℕ → Event
event_record_to_proto e handback = record {
  event_id = e.event_id;
  source = e.source;
  event_type = e.event_type;
  seq_num = e.seq_num;
  attrs = e.attrs;
  payload = e.payload;
  handback = handback;
  emitted_at = e.emitted_at;
}

pub record EventRegistration : Type 0 where
  pub registration_id : String
  pub source : String
  pub lease : Option Lease
  pub seq_num : ℕ

abbrev pub mailbox_batch : ℕ
mailbox_batch = 64

-- What a best-effort stream finds next: an event, with whether the client still takes it, or that it
-- missed some.
pub data Next : Type 0 where
  received : EventRecord → Bool → Next
  lagged : Next

abbrev no_fields : Dict String → Bool
no_fields [] = true
no_fields (f ∷ fs) = false

-- An event that a best-effort subscription forwards.
unfoldable pub forwards : String → Dict String → EventRecord → Bool
forwards source template e =
    e.source == source
    && (no_fields template
        || matches (parse_template template) (Dict.insert "event_type" e.event_type e.attrs))

abbrev pub lag_status : Status
lag_status = record { code = data_loss; message = "subscriber lagged; resubscribe" }

-- What the stream sends until it ends.
unfoldable pub best_effort_loop :
    String → Dict String → List ℕ → List Next → List (Result Status Event)
best_effort_loop source template handback [] = []
best_effort_loop source template handback (lagged ∷ rest) = err lag_status ∷ []
best_effort_loop source template handback (received e taken ∷ rest) =
    let later = best_effort_loop source template handback rest in
    if not (forwards source template e)
    then later
    else if taken
    then ok (event_record_to_proto e handback) ∷ later
    else []

-- What a durable stream does, newest first.
pub data Action : Type 0 where
  sent : Event → Action
  failed : Status → Action
  acked : ℕ → Action

-- One delivery: whether the client takes the event, whether it then makes room again, and what others
-- do to the manager meanwhile.
pub record Delivery (L : Type 0) : Type 0 where
  pub takes : Bool
  pub consumes : Bool
  pub meanwhile : EventManager L → EventManager L

-- A durable stream: at its end, or waiting with its cursor.
pub data Stream (L : Type 0) : Type 0 where
  ended : List Action → EventManager L → Stream L
  waiting : List (Delivery L) → ℕ → List Action → EventManager L → Stream L

-- A wake-up: a broadcast event or a lag, and what others did to the manager since the last one.
pub record Wakeup (L : Type 0) : Type 0 where
  pub event : Option EventRecord
  pub since : EventManager L → EventManager L

-- A lag, or an event for the source.
abbrev pub wakes : String → Option EventRecord → Bool
wakes source none = true
wakes source (some e) = e.source == source

-- How a flush goes on with a batch and a cursor.
abbrev pub Rest : Type 0 → Type 0
Rest L = List EventRecord → ℕ → List Action → EventManager L → Stream L

module _ {L : Type 0} (registration_id : String) (handback : List ℕ) where
  -- The next events after one was acked: the rest of the batch, or what the mailbox has.
  abbrev refill : List EventRecord → ℕ → Method (EventManager L) (List EventRecord)
  refill [] cursor = Manager.peek_mailbox registration_id cursor mailbox_batch
  refill (e ∷ es) cursor = pure (e ∷ es)

  abbrev pub after_peek :
      Rest L → ℕ → List Action → Result Error (List EventRecord) × EventManager L → Stream L
  after_peek rest cursor trace (err x, s) = ended (failed (map_err x) ∷ trace) s
  after_peek rest cursor trace (ok batch, s) = rest batch cursor trace s

  abbrev pub after_ack :
      Rest L
      → EventRecord
      → List EventRecord
      → List Action
      → Result Error Unit × EventManager L
      → Stream L
  after_ack rest e es trace (err x, s) = ended (failed (map_err x) ∷ trace) s
  after_ack rest e es trace (ok done, s) =
      after_peek rest e.seq_num (acked e.seq_num ∷ trace) (refill es e.seq_num s)

  -- The loop that flushes the mailbox until it is empty.
  unfoldable pub flush :
      List (Delivery L) → List EventRecord → ℕ → List Action → EventManager L → Stream L
  flush ds [] cursor trace s = waiting ds cursor trace s
  flush [] (e ∷ es) cursor trace s = ended trace s
  flush (d ∷ ds) (e ∷ es) cursor trace s =
      let rest = flush ds in
      if not d.takes
      then ended trace s
      else if not d.consumes
      then ended (sent (event_record_to_proto e handback) ∷ trace) s
      else after_ack rest e es (sent (event_record_to_proto e handback) ∷ trace)
          (Manager.ack_mailbox registration_id (e.seq_num ∷ []) (d.meanwhile s))

  abbrev pub woken : String → Wakeup L → Stream L → Stream L
  woken source w (ended trace s) = ended trace s
  woken source w (waiting ds cursor trace s) =
      if wakes source w.event
      then after_peek (flush ds) cursor trace
          (Manager.peek_mailbox registration_id cursor mailbox_batch (w.since s))
      else waiting ds cursor trace (w.since s)

  -- The loop that waits for wake-ups, until the channel closes or the client is gone.
  unfoldable pub wait : String → List (Wakeup L) → Stream L → Stream L
  wait source [] stream = stream
  wait source (w ∷ ws) stream = wait source ws (woken source w stream)

  unfoldable pub durable_loop :
      String → List EventRecord → List (Delivery L) → List (Wakeup L) → EventManager L → Stream L
  durable_loop source first_batch ds ws s = wait source ws (flush ds first_batch 0 [] s)

module _ {A S : Type 0} where
  -- `.await.map_err(map_err)?`
  abbrev pub mapped : Method S A → Handler S A
  mapped m s = (on_err map_err (m s).0, (m s).1)

abbrev to_mode : ℕ → DeliveryMode
to_mode n = if eqb n 1 then best_effort else durable

abbrev found_or : {S : Type 0} → Option SubscriptionRecord → Handler S SubscriptionRecord
found_or none s = (err (record { code = not_found; message = "subscription not found" }), s)
found_or (some sub) s = (ok sub, s)

-- What `receive` starts: a best-effort stream, or a durable one with what its mailbox holds.
pub data Receiving : Type 0 where
  best_effort_stream : SubscriptionRecord → Receiving
  durable_stream : SubscriptionRecord → List EventRecord → Receiving

abbrev backlog :
    {L : Type 0} → String → SubscriptionRecord → Bool → Handler (EventManager L) Receiving
backlog id sub false = pure (best_effort_stream sub)
backlog id sub true = do
  first_batch ← mapped (Manager.peek_mailbox id 0 mailbox_batch)
  pure (durable_stream sub first_batch)

module _ {L : Type 0} where
  unfoldable pub receive : String → Handler (EventManager L) Receiving
  receive id = do
    found ← mapped (Manager.get_subscription id)
    sub ← found_or found
    backlog id sub (is_durable sub.delivery)

  unfoldable pub emit :
      ℕ → String → String → String → Dict String → List ℕ → Handler (EventManager L) Unit
  emit now event_id source event_type attrs payload = do
    done ← mapped (Manager.emit now event_id source event_type attrs payload)
    pure tt

module _ {L : Type 0} (leasing : Leasing L) (grantor_host : String) (grantor_port : ℕ) where
  unfoldable pub lease_to_proto : LeaseRecord → Lease
  lease_to_proto lease = record {
    lease_id = lease.lease_id;
    resource_id = lease.resource_id;
    granted_at = lease.granted_at;
    expires_at = lease.expires_at;
    ttl_seconds = lease.ttl_seconds;
    grantor_host = grantor_host;
    grantor_port = grantor_port;
  }

  -- `delivery` is the number of the mode in the message.
  unfoldable pub subscribe :
      String → String → Dict String → ℕ → ℕ → List ℕ → Handler (EventManager L) EventRegistration
  subscribe id source template delivery ttl_secs handback = do
    opened ←
        mapped (Manager.subscribe leasing id source template (to_mode delivery) ttl_secs handback)
    pure (record {
      registration_id = opened.0;
      source = source;
      lease = some (lease_to_proto opened.1);
      seq_num = opened.2;
    })

  unfoldable pub renew_subscription : String → ℕ → Handler (EventManager L) Lease
  renew_subscription id ttl_secs = do
    r ← mapped (Manager.renew_subscription leasing id ttl_secs)
    pure (lease_to_proto r)

  unfoldable pub cancel_subscription : String → Handler (EventManager L) Unit
  cancel_subscription id = mapped (Manager.cancel_subscription leasing id)
