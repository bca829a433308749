-- ===== src/Event/Manager.antt =====
-- The event manager (djinn/crates/coordin8-event/src/manager.rs). `L` is the state of its lease
-- grantor; the broadcast channel is the list of what was sent, oldest first; what the clock and the
-- random source give are arguments. Counters wrap at 64 bits.
use Prim.Native.String.{◌++◌ as concat}
use text.Mathlib.Text.{starts_with as text_starts_with}
use coordin.Common.{
  ℕ, ◌+◌, ◌^◌, ◌%◌, String, Bool, true, false, Option, none, some, List, [], ◌∷◌, ◌++◌, map, filter,
  length, Result, ok, err, pure, raise, ok_or, ◌>>=◌, ◌>>◌, ◌||◌, ◌&&◌, ◌==◌, ltb, if◌then◌else◌,
}
use coordin.Common.Dict
use coordin.Common.Dict.{Dict}
use coordin.Common.Text.{show_u64}
use coordin.Error.{Error, Method, subscription_not_found, storage, to_string}
use coordin.Lease.{LeaseRecord}
use coordin.Lease.Leasing.{Leasing}
use coordin.Registry.Matcher.{matches, parse_template}
use coordin.Event.{EventRecord, SubscriptionRecord, DeliveryMode, durable, best_effort, is_durable}
use coordin.Event.Store
use coordin.Event.Store.{InMemoryEventStore}

pub record EventManager (L : Type 0) : Type 0 where
  pub store : InMemoryEventStore
  pub leases : L
  pub event_tx : List EventRecord
  pub seq_counters : Dict ℕ

abbrev pub is_empty : Dict String → Bool
is_empty [] = true
is_empty (_ ∷ _) = false

-- `max().unwrap_or(0)`
unfoldable pub greatest : List ℕ → ℕ
greatest [] = 0
greatest (n ∷ ns) = let rest = greatest ns in if ltb rest n then n else rest

-- `join(sep)`
unfoldable pub join : String → List String → String
join sep [] = ""
join sep (x ∷ []) = x
join sep (x ∷ y ∷ xs) = concat x (concat sep (join sep (y ∷ xs)))

abbrev pub counter_key : String → String → String
counter_key source event_type = concat source (concat "::" event_type)

abbrev or_zero : Option ℕ → ℕ
or_zero none = 0
or_zero (some n) = n

-- The subscription is durable, for the event's source, and its template accepts the attributes with
-- the event type among them.
unfoldable pub accepts : EventRecord → SubscriptionRecord → Bool
accepts e sub =
    sub.source == e.source
    && (is_durable sub.delivery
        && (is_empty sub.template
            || matches (parse_template sub.template)
                (Dict.insert "event_type" e.event_type e.attrs)))

-- Why a mailbox missed the event, except that its subscription is gone.
abbrev pub failure : String → Result Error ℕ → List String
failure id (ok seq) = []
failure id (err (subscription_not_found _)) = []
failure id (err e) = concat id (concat ": " (to_string e)) ∷ []

-- The loop over the subscriptions, with its failures.
unfoldable pub deliver :
    EventRecord → List SubscriptionRecord → InMemoryEventStore → List String × InMemoryEventStore
deliver e [] s = ([], s)
deliver e (sub ∷ subs) s =
    let (result, t) = Store.enqueue sub.registration_id e s in
    let skipped = deliver e subs s in
    let delivered = deliver e subs t in
    if accepts e sub
    then (failure sub.registration_id result ++ delivered.0, delivered.1)
    else skipped

abbrev pub registration_of : Option SubscriptionRecord → Option String
registration_of none = none
registration_of (some sub) = some sub.registration_id

-- The counters of the source's event types, for a subscription that starts now.
abbrev baseline : String → DeliveryMode → Dict ℕ → ℕ
baseline source durable counters = 0
baseline source best_effort counters =
    greatest (map (λ c. c.1) (filter (λ c. text_starts_with c.0 (concat source "::")) counters))

module _ {L : Type 0} where
  abbrev pub on_store : {A : Type 0} → Method InMemoryEventStore A → Method (EventManager L) A
  on_store m s = ((m s.store).0, record s { store = (m s.store).1 })

  abbrev pub on_leases : {A : Type 0} → Method L A → Method (EventManager L) A
  on_leases m s = ((m s.leases).0, record s { leases = (m s.leases).1 })

  abbrev pub next_count : String → EventManager L → ℕ
  next_count key s = (or_zero (Dict.get key s.seq_counters) + 1) % 2 ^ 64

  abbrev pub finish : EventRecord → List String → Method (EventManager L) EventRecord
  finish e [] = pure e
  finish e (f ∷ fs) = raise (
      storage (
        concat "durable enqueue failed for "
          (concat (show_u64 (length (f ∷ fs))) (concat " subscription(s): " (join "; " (f ∷ fs))))))

  unfoldable pub emit :
      ℕ → String → String → String → Dict String → List ℕ → Method (EventManager L) EventRecord
  emit now event_id source event_type attrs payload s =
      let key = counter_key source event_type in
      let seq_num = next_count key s in
      let e : EventRecord = record {
        event_id = event_id;
        source = source;
        event_type = event_type;
        seq_num = seq_num;
        attrs = attrs;
        payload = payload;
        emitted_at = now;
      } in
      let delivered = deliver e (Dict.values s.store.subscriptions) s.store in
      finish e delivered.0 (record s {
        seq_counters = Dict.insert key seq_num s.seq_counters;
        store = delivered.1;
        event_tx = s.event_tx ++ e ∷ [];
      })

  unfoldable pub get_subscription : String → Method (EventManager L) (Option SubscriptionRecord)
  get_subscription id = on_store (Store.get_subscription id)

  unfoldable pub peek_mailbox : String → ℕ → ℕ → Method (EventManager L) (List EventRecord)
  peek_mailbox id after_seq limit = on_store (Store.peek id after_seq limit)

  unfoldable pub ack_mailbox : String → List ℕ → Method (EventManager L) Unit
  ack_mailbox id seq_nums = on_store (Store.ack id seq_nums)

  unfoldable pub unsubscribe_by_lease : String → Method (EventManager L) (Option String)
  unsubscribe_by_lease lease_id = do
    removed ← on_store (Store.remove_by_lease lease_id)
    pure (registration_of removed)

module _ {L : Type 0} (leasing : Leasing L) where
  unfoldable pub subscribe :
      String
      → String
      → Dict String
      → DeliveryMode
      → ℕ
      → List ℕ
      → Method (EventManager L) (String × LeaseRecord × ℕ)
  subscribe id source template delivery ttl_secs handback = do
    lease ← on_leases (leasing.grant (concat "event:" id) ttl_secs)
    initial_seq_num ← (λ s. (ok (baseline source delivery s.seq_counters), s))
    on_store (
        Store.create_subscription (record {
          registration_id = id;
          source = source;
          template = template;
          delivery = delivery;
          lease_id = lease.lease_id;
          handback = handback;
          initial_seq_num = initial_seq_num;
        }))
    pure (id, lease, initial_seq_num)

  unfoldable pub cancel_subscription : String → Method (EventManager L) Unit
  cancel_subscription id = do
    found ← on_store (Store.get_subscription id)
    sub ← ok_or (subscription_not_found id) found
    on_store (Store.remove_subscription id)
    on_leases (leasing.cancel sub.lease_id)

  unfoldable pub renew_subscription : String → ℕ → Method (EventManager L) LeaseRecord
  renew_subscription id ttl_secs = do
    found ← on_store (Store.get_subscription id)
    sub ← ok_or (subscription_not_found id) found
    on_leases (leasing.renew sub.lease_id ttl_secs)
