-- ===== src/Event/Tests.antt =====
-- Runs of the mailboxes and of an emission, and the theorems at concrete inputs.
use coordin.Common.{
  Bool-cases, inl, inr, Option, none, some, ◌==◌, ◌≡◌, refl, arith, String, List, [], ◌∷◌, ◌++◌, ok,
  true, map,
}
use coordin.Common.Dict
use coordin.Event.{EventRecord, SubscriptionRecord, durable}
use coordin.Event.Store.{Mailbox, InMemoryEventStore, default_mailbox, peek}
use coordin.Event.Mailbox.{IsMailbox}
use coordin.Event.Fifo.{enqueue_all, number, enqueue_all-peek}
use coordin.Event.Manager.{EventManager, emit}
use coordin.Event.Service.{Delivery}
use coordin.Event.Delivery.{event, Offered, emit_exact}

abbrev door : EventRecord
door = record {
  event_id = "e1";
  source = "door";
  event_type = "open";
  seq_num = 4;
  attrs = ("floor", "2") ∷ [];
  payload = [];
  emitted_at = 5;
}

abbrev watcher : SubscriptionRecord
watcher = record {
  registration_id = "r1";
  source = "door";
  template = ("event_type", "open") ∷ [];
  delivery = durable;
  lease_id = "l1";
  handback = [];
  initial_seq_num = 0;
}

abbrev one : Mailbox
one = record { last_seq = 1; entries = (1, record door { seq_num = 1 }) ∷ [] }

abbrev store : InMemoryEventStore
store = record { subscriptions = ("r1", watcher) ∷ []; mailboxes = ("r1", one) ∷ [] }

one-IsMailbox : IsMailbox one
one-IsMailbox = (omega arith, omega arith)

abbrev fresh : InMemoryEventStore
fresh = record store { mailboxes = ("r1", default_mailbox) ∷ [] }

enqueue_all-peek_example :
    (peek "r1" 0 9 (enqueue_all "r1" (door ∷ door ∷ []) fresh)).0
    ≡ ok (map (λ e. e.1) (number 0 (door ∷ door ∷ [])))
unfolding Dict.get
enqueue_all-peek_example =
    enqueue_all-peek "r1" (door ∷ door ∷ []) 9 fresh refl (omega arith) (omega arith)

abbrev manager : EventManager (List String)
manager = record { store = store; leases = []; event_tx = []; seq_counters = [] }

emit_exact_example :
    ((emit 5 "e2" "door" "open" [] [] manager).0 ≡ ok (event 5 "e2" "door" "open" [] [] manager))
    × ((emit 5 "e2" "door" "open" [] [] manager).1.event_tx
        ≡ [] ++ event 5 "e2" "door" "open" [] [] manager ∷ [])
    × ((id : String)
        → Offered
            (event 5 "e2" "door" "open" [] [] manager)
            (Dict.get id store.subscriptions)
            (Dict.get id store.mailboxes)
            (Dict.get id (emit 5 "e2" "door" "open" [] [] manager).1.store.mailboxes))
unfolding Dict.get
emit_exact_example =
    emit_exact 5 "e2" "door" "open" [] [] manager (refl, refl, tt)
      (λ id sub h. elim (Bool-cases ("r1" == id)) [
        | inl e ↦
            let same : some watcher ≡ some sub = rw e at h in
            let is : watcher ≡ sub = cc in rw (← is) (refl, tt)
        | inr e ↦ let no : ◌≡◌ {A = Option SubscriptionRecord} none (some sub) = rw e at h in cc
      ])

-- An event of another source.
abbrev window : EventRecord
window = record door { source = "window" }

-- The client takes the event and makes room again, while another event is emitted.
abbrev taken : Delivery (List String)
taken = record {
  takes = true;
  consumes = true;
  meanwhile = λ s. (emit 6 "e3" "door" "open" [] [] s).1;
}
