-- ===== src/Event/Store.antt =====
-- The in-memory event store (djinn/providers/local/src/event_store.rs). A `BTreeMap` is a list in
-- ascending order of its keys; the counter of a mailbox wraps at 64 bits.
use coordin.Common.{
  ℕ, ◌+◌, ◌^◌, ◌%◌, String, Option, none, some, List, [], ◌∷◌, map, take, filter, find, ok, err,
  gets, ltb, eqb, ◌==◌, if◌then◌else◌,
}
use coordin.Common.Dict
use coordin.Common.Dict.{Dict}
use coordin.Error.{Method, subscription_not_found}
use coordin.Event.{EventRecord, SubscriptionRecord}

-- `BTreeMap<u64, EventRecord>`
abbrev pub Entries : Type 0
Entries = List (ℕ × EventRecord)

unfoldable pub insert_entry : ℕ → EventRecord → Entries → Entries
insert_entry seq e [] = (seq, e) ∷ []
insert_entry seq e ((i, x) ∷ rest) =
    let later = insert_entry seq e rest in
    if ltb seq i
    then (seq, e) ∷ (i, x) ∷ rest
    else if eqb seq i
    then (seq, e) ∷ rest
    else (i, x) ∷ later

unfoldable pub remove_entry : ℕ → Entries → Entries
remove_entry seq [] = []
remove_entry seq ((i, x) ∷ rest) =
    let later = remove_entry seq rest in if eqb seq i then rest else (i, x) ∷ later

pub record Mailbox : Type 0 where
  pub last_seq : ℕ
  pub entries : Entries

abbrev pub default_mailbox : Mailbox
default_mailbox = record { last_seq = 0; entries = [] }

pub record InMemoryEventStore : Type 0 where
  pub subscriptions : Dict SubscriptionRecord
  pub mailboxes : Dict Mailbox

unfoldable pub create_subscription : SubscriptionRecord → Method InMemoryEventStore Unit
create_subscription sub s = (
  ok tt,
  record s {
    subscriptions = Dict.insert sub.registration_id sub s.subscriptions;
    mailboxes = Dict.insert sub.registration_id default_mailbox s.mailboxes;
  },
)

unfoldable pub get_subscription : String → Method InMemoryEventStore (Option SubscriptionRecord)
get_subscription id = gets λ s. Dict.get id s.subscriptions

abbrev pub without : String → InMemoryEventStore → InMemoryEventStore
without id s = record s {
  subscriptions = Dict.remove id s.subscriptions;
  mailboxes = Dict.remove id s.mailboxes;
}

unfoldable pub remove_subscription : String → Method InMemoryEventStore Unit
remove_subscription id s = (ok tt, without id s)

unfoldable pub remove_by_lease : String → Method InMemoryEventStore (Option SubscriptionRecord)
remove_by_lease lease_id s = elim (find (λ e. e.1.lease_id == lease_id) s.subscriptions) [
  | some (id, sub) ↦ (ok (Dict.get id s.subscriptions), without id s)
  | none ↦ (ok none, s)
]

unfoldable pub list_subscriptions : Method InMemoryEventStore (List SubscriptionRecord)
list_subscriptions = gets λ s. Dict.values s.subscriptions

abbrev pub next_seq : Mailbox → ℕ
next_seq m = (m.last_seq + 1) % 2 ^ 64

abbrev pub post : EventRecord → Mailbox → Mailbox
post e m = record m {
  last_seq = next_seq m;
  entries = insert_entry (next_seq m) (record e { seq_num = next_seq m }) m.entries;
}

unfoldable pub enqueue : String → EventRecord → Method InMemoryEventStore ℕ
enqueue id e s = elim (Dict.get id s.mailboxes) [
  | some m ↦ (ok (next_seq m), record s { mailboxes = Dict.insert id (post e m) s.mailboxes })
  | none ↦ (err (subscription_not_found id), s)
]

abbrev pub entries_after : ℕ → ℕ → Entries → List EventRecord
entries_after after_seq limit entries =
    map (λ e. e.1) (take limit (filter (λ e. ltb after_seq e.0) entries))

unfoldable pub peek : String → ℕ → ℕ → Method InMemoryEventStore (List EventRecord)
peek id after_seq limit = gets λ s. elim (Dict.get id s.mailboxes) [
  | some m ↦ entries_after after_seq limit m.entries
  | none ↦ []
]

-- The loop of `ack`.
unfoldable pub remove_entries : List ℕ → Entries → Entries
remove_entries [] entries = entries
remove_entries (seq ∷ seqs) entries = remove_entries seqs (remove_entry seq entries)

unfoldable pub ack : String → List ℕ → Method InMemoryEventStore Unit
ack id seq_nums s = elim (Dict.get id s.mailboxes) [
  | some m ↦ (
    ok tt,
    record s {
      mailboxes =
          Dict.insert id (record m { entries = remove_entries seq_nums m.entries }) s.mailboxes;
    },
  )
  | none ↦ (ok tt, s)
]
