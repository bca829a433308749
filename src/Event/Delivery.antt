-- ===== src/Event/Delivery.antt =====
-- Which mailboxes an emitted event reaches (djinn/crates/coordin8-event/src/manager.rs).
use coordin.Common.{
  ◌⊎◌, ◌∙◌, ℕ, String, Bool, true, false, Option, none, some, List, [], ◌∷◌, ◌++◌, any, ok, ◌≡◌,
  ◌≢◌, refl, arith, ◌==◌, ◌&&◌, ◌||◌, if◌then◌else◌, All, eq_iff, Bool-cases, Option-cases, inl,
  inr,
}
use coordin.Common.Dict
use coordin.Common.Dict.{Dict, IsDict, get-insert}
use coordin.Common.Keyed.{IsKeyed, Distinct, values-Distinct, any_found}
use coordin.Event.{EventRecord, SubscriptionRecord, DeliveryMode, durable, best_effort, is_durable}
use coordin.Registry.Matching.{Meets, matches_iff}
use coordin.Event.Store.{InMemoryEventStore, Mailbox, enqueue, post}
use coordin.Event.Manager.{
  EventManager, failure, accepts, is_empty, deliver, emit, counter_key, next_count,
}

abbrev pub registration : SubscriptionRecord → String
registration sub = sub.registration_id

-- A mailbox after the event was offered to it.
abbrev pub offered : EventRecord → Bool → Option Mailbox → Option Mailbox
offered e reached none = none
offered e reached (some m) = if reached then some (post e m) else some m

-- Some of the subscriptions is `id`'s and accepts the event.
abbrev pub reaches : EventRecord → String → List SubscriptionRecord → Bool
reaches e id subs = any (λ sub. registration sub == id && accepts e sub) subs

offered-true : (e : EventRecord) (m : Option Mailbox) (b : Bool) → b ≡ false → offered e b m ≡ m
offered-true e none b h = refl
offered-true e (some m) b h = rw h refl

enqueue-get :
    (e : EventRecord) (id j : String) (s : InMemoryEventStore)
    → Dict.get j (enqueue id e s).1.mailboxes ≡ offered e (id == j) (Dict.get j s.mailboxes)
unfolding enqueue
enqueue-get e id j s = elim (Option-cases (Dict.get id s.mailboxes)) [
  | inl x ↦ elim (Bool-cases (id == j)) [
    | inl same ↦
        let id_eq : id ≡ j = (eq_iff id j).0 same in rw (x, enqueue) (rw (← id_eq) (rw x refl))
    | inr other ↦
        rw (x, enqueue) (rw (offered-true e (Dict.get j s.mailboxes) (id == j) other) refl)
  ]
  | inr (m, x) ↦ elim (Bool-cases (id == j)) [
    | inl same ↦
        let id_eq : id ≡ j = (eq_iff id j).0 same in
        let found : Dict.get j s.mailboxes ≡ some m = rw (← id_eq) x in
        rw (x, enqueue) (rw (get-insert, same, found) refl)
    | inr other ↦
        rw (x, enqueue)
          (rw (get-insert, other, offered-true e (Dict.get j s.mailboxes) false refl) refl)
  ]
]

-- No other subscription of the list has the id.
unreached :
    (e : EventRecord) (id : String) (subs : List SubscriptionRecord)
    → All (λ sub. registration sub ≢ id) subs
    → reaches e id subs ≡ false
unfolding any
unreached e id [] h = refl
unreached e id (sub ∷ subs) h =
    ground (arith, unreached e id subs h.1, eq_iff (registration sub) id, h.0)

once :
    (e : EventRecord) (a b : Bool) (m : Option Mailbox)
    → (a ≡ true → b ≡ false)
    → offered e b (offered e a m) ≡ offered e ((a && true) || b) m
once e a b none h = refl
once e true true (some m) h = absurd (ground (arith, h refl))
once e true false (some m) h = refl
once e false true (some m) h = refl
once e false false (some m) h = refl

others :
    (sub : SubscriptionRecord) (subs : List SubscriptionRecord) (j : String)
    → (registration sub == j) ≡ true
    → All (λ other. registration other ≢ registration sub) subs
    → (e : EventRecord) → reaches e j subs ≡ false
others sub subs j same d e =
    let id_eq : registration sub ≡ j = (eq_iff (registration sub) j).0 same in
    rw (← id_eq) (unreached e (registration sub) subs d)

deliver-get :
    (e : EventRecord) (j : String) (subs : List SubscriptionRecord) (s : InMemoryEventStore)
    → Distinct registration subs
    → Dict.get j (deliver e subs s).1.mailboxes
      ≡ offered e (reaches e j subs) (Dict.get j s.mailboxes)
unfolding deliver any
deliver-get e j [] s d = rw (offered-true e (Dict.get j s.mailboxes) false refl) refl
deliver-get e j (sub ∷ subs) s d = elim (Bool-cases (accepts e sub)) [
  | inr refused ↦ rw (refused, deliver) (rw (deliver-get e j subs s d.1) (ground arith))
  | inl ok_here ↦
      rw (ok_here, deliver)
        (rw (deliver-get e j subs (enqueue sub.registration_id e s).1 d.1) (
          rw (enqueue-get e sub.registration_id j s) (
            once e (registration sub == j) (reaches e j subs) (Dict.get j s.mailboxes)
              (λ same. others sub subs j same d.0 e))))
]

failure-enqueue :
    (e : EventRecord) (id : String) (s : InMemoryEventStore) → failure id (enqueue id e s).0 ≡ []
unfolding enqueue
failure-enqueue e id s = elim (Option-cases (Dict.get id s.mailboxes)) [
  | inl x ↦ rw (x, enqueue) refl
  | inr (m, x) ↦ rw (x, enqueue) refl
]

-- Deliveries to the in-memory store do not fail.
deliver-none :
    (e : EventRecord) (subs : List SubscriptionRecord) (s : InMemoryEventStore)
    → (deliver e subs s).0 ≡ []
unfolding deliver
deliver-none e [] s = refl
deliver-none e (sub ∷ subs) s = elim (Bool-cases (accepts e sub)) [
  | inr refused ↦ rw (refused, deliver) (deliver-none e subs s)
  | inl accepted ↦
      rw (accepted, deliver)
        (rw
          (
            failure-enqueue e sub.registration_id s,
            deliver-none e subs (enqueue sub.registration_id e s).1,
          )
          refl)
]

-- The event as it is broadcast.
abbrev pub event :
    {L : Type 0}
    → ℕ
    → String
    → String
    → String
    → Dict String
    → List ℕ
    → EventManager L
    → EventRecord
event now event_id source event_type attrs payload s = record {
  event_id = event_id;
  source = source;
  event_type = event_type;
  seq_num = next_count (counter_key source event_type) s;
  attrs = attrs;
  payload = payload;
  emitted_at = now;
}

abbrev accepted_by : EventRecord → Option SubscriptionRecord → Bool
accepted_by e none = false
accepted_by e (some sub) = accepts e sub

reaches_lem :
    (e : EventRecord) (id : String) (subs : Dict SubscriptionRecord)
    → IsKeyed registration subs
    → reaches e id (Dict.values subs) ≡ accepted_by e (Dict.get id subs)
reaches_lem e id subs keyed = elim (Option-cases (Dict.get id subs)) [
  | inl x ↦ rw (any_found registration (accepts e) id subs keyed, x) refl
  | inr (sub, x) ↦ rw (any_found registration (accepts e) id subs keyed, x) refl
]

-- What an event has to be for a mailbox: the subscription is durable and for the event's source, and
-- each of its template's values gets what it asks of the attributes, the event type among them.
pub record Wanted (e : EventRecord) (sub : SubscriptionRecord) : Type 0 where
  pub of_source : sub.source ≡ e.source
  pub is_kept : sub.delivery ≡ durable
  pub meets :
      (k v : String)
      → Dict.get k sub.template ≡ some v
      → Meets v (Dict.get k (Dict.insert "event_type" e.event_type e.attrs))

durable_eq : (m : DeliveryMode) → is_durable m ≡ true → m ≡ durable
durable_eq durable h = refl
durable_eq best_effort h = cc

is_empty_eq : (t : Dict String) → is_empty t ≡ true → t ≡ []
is_empty_eq [] h = refl
is_empty_eq (f ∷ fs) h = cc

accepts-Wanted :
    (e : EventRecord) (sub : SubscriptionRecord)
    → IsDict sub.template
    → accepts e sub ≡ true
    → Wanted e sub
unfolding accepts Dict.get
accepts-Wanted e sub d h = record {
  of_source = (eq_iff sub.source e.source).0 (ground arith);
  is_kept = durable_eq sub.delivery (ground arith);
  meets = λ k v found. elim (Bool-cases (is_empty sub.template)) [
    | inl x ↦ let none_there : none ≡ some v = rw (is_empty_eq sub.template x) at found in cc
    | inr x ↦
        (matches_iff sub.template (Dict.insert "event_type" e.event_type e.attrs) d).0
          (ground arith) k v found
  ];
}

Wanted-accepts :
    (e : EventRecord) (sub : SubscriptionRecord)
    → IsDict sub.template
    → Wanted e sub
    → accepts e sub ≡ true
unfolding accepts
Wanted-accepts e sub d h =
    let all =
      (matches_iff sub.template (Dict.insert "event_type" e.event_type e.attrs) d).1 h.meets in
    let source = (eq_iff sub.source e.source).1 h.of_source in
    rw (source, h.is_kept, all) (ground arith)

-- The subscription of an id wants the event.
abbrev pub WantedAt : EventRecord → Option SubscriptionRecord → Type 0
WantedAt e none = ⊥
WantedAt e (some sub) = Wanted e sub

abbrev IsDictAt : Option SubscriptionRecord → Type 0
IsDictAt none = Unit
IsDictAt (some sub) = IsDict sub.template

-- What becomes of a mailbox: it gets the event where it is wanted, and nothing where it is not.
abbrev pub Offered :
    EventRecord → Option SubscriptionRecord → Option Mailbox → Option Mailbox → Type 0
Offered e sub before after =
    (WantedAt e sub × (after ≡ offered e true before)) ⊎ (¬ WantedAt e sub × (after ≡ before))

Offered_lem :
    (e : EventRecord) (sub : Option SubscriptionRecord) (before after : Option Mailbox)
    → IsDictAt sub
    → after ≡ offered e (accepted_by e sub) before
    → Offered e sub before after
Offered_lem e none before after d h = inr (λ w. w, h ∙ offered-true e before false refl)
Offered_lem e (some sub) before after d h = elim (Bool-cases (accepts e sub)) [
  | inl x ↦ inl (accepts-Wanted e sub d x, rw x at h)
  | inr x ↦ inr (
    λ w. let yes = Wanted-accepts e sub d w in absurd (ground arith),
    h ∙ offered-true e before (accepts e sub) x,
  )
]

dicts_at :
    (id : String) (subs : Dict SubscriptionRecord)
    → ((j : String) (sub : SubscriptionRecord) → Dict.get j subs ≡ some sub → IsDict sub.template)
    → IsDictAt (Dict.get id subs)
dicts_at id subs h = elim (Option-cases (Dict.get id subs)) [
  | inl x ↦ rw x tt
  | inr (sub, x) ↦ rw x (h id sub x)
]

emit_mailboxes :
    {L : Type 0} (now : ℕ) (event_id source event_type : String) (attrs : Dict String)
    (payload : List ℕ) (s : EventManager L)
    → IsKeyed registration s.store.subscriptions
    → (id : String)
    → Dict.get id (emit now event_id source event_type attrs payload s).1.store.mailboxes
      ≡ offered
          (event now event_id source event_type attrs payload s)
          (accepted_by
            (event now event_id source event_type attrs payload s)
            (Dict.get id s.store.subscriptions))
          (Dict.get id s.store.mailboxes)
unfolding emit
emit_mailboxes now event_id source event_type attrs payload s keyed id =
    let e = event now event_id source event_type attrs payload s in
    let subs = Dict.values s.store.subscriptions in
    rw (deliver-none e subs s.store) (
      rw
        (
          deliver-get e id subs s.store (values-Distinct registration s.store.subscriptions keyed),
          reaches_lem e id s.store.subscriptions keyed,
        )
        refl)

-- With each subscription under its own id, and a template's fields distinct, an emitted event is
-- returned and broadcast, and it is added to a mailbox exactly if the subscription of that id wants
-- it: a durable one for the event's source, whose template gets what it asks of the attributes with
-- the event type. No other mailbox changes.
pub emit_exact :
    {L : Type 0} (now : ℕ) (event_id source event_type : String) (attrs : Dict String)
    (payload : List ℕ) (s : EventManager L)
    → IsKeyed registration s.store.subscriptions
    → ((id : String) (sub : SubscriptionRecord)
        → Dict.get id s.store.subscriptions ≡ some sub
        → IsDict sub.template)
    → ((emit now event_id source event_type attrs payload s).0
        ≡ ok (event now event_id source event_type attrs payload s))
      × ((emit now event_id source event_type attrs payload s).1.event_tx
          ≡ s.event_tx ++ event now event_id source event_type attrs payload s ∷ [])
      × ((id : String)
          → Offered
              (event now event_id source event_type attrs payload s)
              (Dict.get id s.store.subscriptions)
              (Dict.get id s.store.mailboxes)
              (Dict.get id (emit now event_id source event_type attrs payload s).1.store.mailboxes))
unfolding emit
emit_exact now event_id source event_type attrs payload s keyed dicts =
    let e = event now event_id source event_type attrs payload s in
    let subs = Dict.values s.store.subscriptions in
    (
      rw (deliver-none e subs s.store) refl,
      rw (deliver-none e subs s.store) refl,
      λ id.
          Offered_lem e (Dict.get id s.store.subscriptions) (Dict.get id s.store.mailboxes) _
            (dicts_at id s.store.subscriptions dicts)
            (emit_mailboxes now event_id source event_type attrs payload s keyed id),
    )
