-- ===== src/Dynamo/RoundTrips.antt =====
-- What the stores write is what they read back (djinn/providers/dynamo/src).
use coordin.Common.{ℕ, ◌≤◌, String, Option, none, some, List, [], ◌∷◌, ok, ◌≡◌, refl, map, All}
use coordin.Common.Dict
use coordin.Registry.{RegistryEntry, TransportConfig}
use coordin.Txn.{
  TransactionState, active, voting, prepared, committed, aborted, ParticipantRecord,
  TransactionRecord,
}
use coordin.Event.{SubscriptionRecord, EventRecord, DeliveryMode, durable, best_effort}
use coordin.Space.{TupleRecord, SpaceWatchRecord, SpaceEventKind, appearance, expiration}
use coordin.Dynamo.{Formats}
use coordin.Dynamo.Items.{u64_max, read_texts-text_map, parse_u64-show_u64, read_values, to_values}
use coordin.Dynamo.RegistryStore.{entry_to_item, entry_from_item}
use coordin.Dynamo.TxnStore.{
  state_to_str, state_from_str, participant_to_av, participant_from_av, participants_to_av,
}
use coordin.Dynamo.TxnStore
use coordin.Dynamo.SpaceStore.{tuple_to_item, tuple_from_item, watch_to_item, watch_from_item}
use coordin.Dynamo.EventStore.{
  sub_to_item, sub_from_item, delivery_to_str, delivery_from_str, event_to_item, event_from_item,
}

-- The entry with a transport in place of its own.
entry_with :
    (e : RegistryEntry) (transport : Option TransportConfig)
    → entry_from_item (entry_to_item (record e { transport = transport }))
      ≡ ok (record e { transport = transport })
unfolding entry_from_item entry_to_item Dict.get
entry_with e none = rw read_texts-text_map refl
entry_with e (some t) = rw (read_texts-text_map, read_texts-text_map) refl

-- A registry entry, with or without a transport, is read back from the item that is put for it.
pub entry_from_item-entry_to_item : (e : RegistryEntry) → entry_from_item (entry_to_item e) ≡ ok e
entry_from_item-entry_to_item e = entry_with e e.transport

pub state_from_str-state_to_str : (s : TransactionState) → state_from_str (state_to_str s) ≡ ok s
unfolding state_from_str state_to_str
state_from_str-state_to_str active = refl
state_from_str-state_to_str voting = refl
state_from_str-state_to_str prepared = refl
state_from_str-state_to_str committed = refl
state_from_str-state_to_str aborted = refl

-- The counters fit a `u64`.
abbrev pub Counted : ParticipantRecord → Type 0
Counted p = p.crash_count ≤ u64_max

pub participant_from_av-participant_to_av :
    (p : ParticipantRecord) → Counted p → participant_from_av (participant_to_av p) ≡ ok p
unfolding participant_from_av participant_to_av Dict.get
participant_from_av-participant_to_av p h = rw (parse_u64-show_u64 p.crash_count h) refl

pub participants_read :
    (ps : List ParticipantRecord)
    → All Counted ps
    → read_values participant_from_av (to_values (map participant_to_av ps)) ≡ ok ps
unfolding read_values
participants_read [] h = refl
participants_read (p ∷ ps) h =
    rw (participant_from_av-participant_to_av p h.0, participants_read ps h.1) refl

delivery_from_str-delivery_to_str :
    (m : DeliveryMode) → delivery_from_str (delivery_to_str m) ≡ ok m
unfolding delivery_from_str delivery_to_str
delivery_from_str-delivery_to_str durable = refl
delivery_from_str-delivery_to_str best_effort = refl

sub_with :
    (sub : SubscriptionRecord) (handback : List ℕ)
    → sub.initial_seq_num ≤ u64_max
    → sub_from_item (sub_to_item (record sub { handback = handback }))
      ≡ ok (record sub { handback = handback })
unfolding sub_from_item sub_to_item Dict.get
sub_with sub [] h =
    rw (delivery_from_str-delivery_to_str, read_texts-text_map, parse_u64-show_u64 _ h) refl
sub_with sub (b ∷ bs) h =
    rw (delivery_from_str-delivery_to_str, read_texts-text_map, parse_u64-show_u64 _ h) refl

-- A subscription is read back from the item that is put for it, if its first number is a `u64`.
pub sub_from_item-sub_to_item :
    (sub : SubscriptionRecord)
    → sub.initial_seq_num ≤ u64_max
    → sub_from_item (sub_to_item sub) ≡ ok sub
sub_from_item-sub_to_item sub h = sub_with sub sub.handback h

module _ (formats : Formats)
    (reads : (n : ℕ) → formats.parse_date (formats.to_rfc3339 n) ≡ ok n) where
  -- A transaction is read back from the item that is put for it.
  pub record_from_item-item_of :
      (r : TransactionRecord)
      → All Counted r.participants
      → TxnStore.record_from_item formats (TxnStore.item_of formats r) ≡ ok r
  unfolding TxnStore.record_from_item TxnStore.item_of participants_to_av Dict.get
  record_from_item-item_of r h =
      rw (state_from_str-state_to_str, reads, participants_read r.participants h) refl

  event_with :
      (registration_id : String) (seq : ℕ) (event : EventRecord) (payload : List ℕ)
      → seq ≤ u64_max
      → event_from_item formats
          (event_to_item formats registration_id seq (record event { payload = payload }))
        ≡ ok (record event { seq_num = seq; payload = payload })
  unfolding event_from_item event_to_item Dict.get
  event_with registration_id seq event [] h =
      rw (parse_u64-show_u64 seq h, reads, read_texts-text_map) refl
  event_with registration_id seq event (b ∷ bs) h =
      rw (parse_u64-show_u64 seq h, reads, read_texts-text_map) refl

  -- An event is read back from the item that `enqueue` puts for it, with its number in the mailbox.
  pub event_from_item-event_to_item :
      (registration_id : String) (seq : ℕ) (event : EventRecord)
      → seq ≤ u64_max
      → event_from_item formats (event_to_item formats registration_id seq event)
        ≡ ok (record event { seq_num = seq })
  event_from_item-event_to_item registration_id seq event h =
      event_with registration_id seq event event.payload h

  tuple_with :
      (r : TupleRecord) (payload : List ℕ) (input_tuple_id : Option String)
      → tuple_from_item formats
          (tuple_to_item formats (record r { payload = payload; input_tuple_id = input_tuple_id }))
        ≡ ok (record r { payload = payload; input_tuple_id = input_tuple_id })
  unfolding tuple_from_item tuple_to_item Dict.get
  tuple_with r [] none = rw (reads, read_texts-text_map) refl
  tuple_with r [] (some id) = rw (reads, read_texts-text_map) refl
  tuple_with r (b ∷ bs) none = rw (reads, read_texts-text_map) refl
  tuple_with r (b ∷ bs) (some id) = rw (reads, read_texts-text_map) refl

  -- A tuple is read back from the item that is put for it.
  pub tuple_from_item-tuple_to_item :
      (r : TupleRecord) → tuple_from_item formats (tuple_to_item formats r) ≡ ok r
  tuple_from_item-tuple_to_item r = tuple_with r r.payload r.input_tuple_id

watch_with :
    (w : SpaceWatchRecord) (handback : List ℕ) (on : SpaceEventKind)
    → watch_from_item (watch_to_item (record w { handback = handback; on = on }))
      ≡ ok (record w { handback = handback; on = on })
unfolding watch_from_item watch_to_item Dict.get
watch_with w [] appearance = rw read_texts-text_map refl
watch_with w [] expiration = rw read_texts-text_map refl
watch_with w (b ∷ bs) appearance = rw read_texts-text_map refl
watch_with w (b ∷ bs) expiration = rw read_texts-text_map refl

-- A watch is read back from the item that is put for it.
pub watch_from_item-watch_to_item :
    (w : SpaceWatchRecord) → watch_from_item (watch_to_item w) ≡ ok w
watch_from_item-watch_to_item w = watch_with w w.handback w.on
