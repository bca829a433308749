-- ===== src/Event/Sparing.antt =====
-- An emission between two deliveries (djinn/crates/coordin8-event/src/manager.rs) takes no number out of
-- a mailbox.
use coordin.Common.{
  ℕ, String, List, [], ◌∷◌, some, ◌≡◌, refl, eqb, ltb, ◌==◌, Bool-cases, Option-cases, inl, inr, In,
  here, there, arith, eq_iff, ap,
}
use coordin.Common.Dict
use coordin.Common.Dict.{Dict, get-insert}
use coordin.Event.{EventRecord, SubscriptionRecord}
use coordin.Event.Store.{Entries, InMemoryEventStore, insert_entry, enqueue}
use coordin.Event.Manager.{EventManager, accepts, finish, deliver, emit}
use coordin.Event.Delivery.{event}
use coordin.Event.Streams.{entries_in, IsHeld, Spares}

abbrev Has : ℕ → Entries → Type 0
Has n entries = (e : EventRecord) × In (n, e) entries

Has-later : (n k : ℕ) (x : EventRecord) (rest : Entries) → Has n rest → Has n ((k, x) ∷ rest)
Has-later n k x rest (e, i) = (e, there i)

insert_entry-Has :
    (n k : ℕ) (x : EventRecord) (entries : Entries)
    → Has n entries
    → Has n (insert_entry k x entries)
unfolding insert_entry
insert_entry-Has n k x [] (e, i) = elim i [ ]
insert_entry-Has n k x ((j, y) ∷ rest) (e, here same) = elim (Bool-cases (ltb k j)) [
  | inl p ↦ rw p (e, there (here same))
  | inr p ↦ elim (Bool-cases (eqb k j)) [
    | inl q ↦
        let n_eq : n ≡ j = ap (λ (z : ℕ × EventRecord). z.0) same in
        let k_eq : n ≡ k = ground arith in rw (p, q) (x, here (rw k_eq refl))
    | inr q ↦ rw (p, q) (e, here same)
  ]
]
insert_entry-Has n k x ((j, y) ∷ rest) (e, there i) = elim (Bool-cases (ltb k j)) [
  | inl p ↦ rw p (e, there (there i))
  | inr p ↦ elim (Bool-cases (eqb k j)) [
    | inl q ↦ rw (p, q) (e, there i)
    | inr q ↦ rw (p, q) (Has-later n j y _ (insert_entry-Has n k x rest (e, i)))
  ]
]

-- The mailbox of `id` has an entry of the number.
abbrev HasIn : String → ℕ → InMemoryEventStore → Type 0
HasIn id n s = Has n (entries_in (Dict.get id s.mailboxes))

enqueue-HasIn :
    (id j : String) (n : ℕ) (x : EventRecord) (s : InMemoryEventStore)
    → HasIn id n s
    → HasIn id n (enqueue j x s).1
unfolding enqueue
enqueue-HasIn id j n x s h = elim (Option-cases (Dict.get j s.mailboxes)) [
  | inl e ↦ rw (e, enqueue) h
  | inr (m, e) ↦ elim (Bool-cases (j == id)) [
    | inr other ↦ rw (e, enqueue) (rw (get-insert, other) h)
    | inl same ↦
        let id_eq : j ≡ id = (eq_iff j id).0 same in
        let found : Dict.get id s.mailboxes ≡ some m = rw (← id_eq) e in
        let held : Has n m.entries = rw found at h in
        rw (e, enqueue) (rw (get-insert, same) (insert_entry-Has n _ _ m.entries held))
  ]
]

deliver-HasIn :
    (id : String) (n : ℕ) (x : EventRecord) (subs : List SubscriptionRecord)
    (s : InMemoryEventStore)
    → HasIn id n s
    → HasIn id n (deliver x subs s).1
unfolding deliver
deliver-HasIn id n x [] s h = h
deliver-HasIn id n x (sub ∷ subs) s h = elim (Bool-cases (accepts x sub)) [
  | inr e ↦ rw (e, deliver) (deliver-HasIn id n x subs s h)
  | inl e ↦
      rw (e, deliver) (deliver-HasIn id n x subs _ (enqueue-HasIn id sub.registration_id n x s h))
]

finish-IsHeld :
    {L : Type 0} (id : String) (n : ℕ) (x : EventRecord) (failures : List String)
    (s : EventManager L)
    → IsHeld id n s
    → IsHeld id n (finish x failures s).1
finish-IsHeld id n x [] s h = h
finish-IsHeld id n x (f ∷ fs) s h = h

-- An emission leaves each number in a mailbox there.
pub emit-Spares :
    {L : Type 0} (id : String) (now : ℕ) (event_id source event_type : String) (attrs : Dict String)
    (payload : List ℕ)
    → Spares {L = L} id (λ s. (emit now event_id source event_type attrs payload s).1)
unfolding emit
emit-Spares id now event_id source event_type attrs payload s n h =
    let x = event now event_id source event_type attrs payload s in
    finish-IsHeld id n x (deliver x (Dict.values s.store.subscriptions) s.store).0 _
      (deliver-HasIn id n x (Dict.values s.store.subscriptions) s.store h)
