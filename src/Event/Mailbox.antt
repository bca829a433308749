-- ===== src/Event/Mailbox.antt =====
-- Durable mailboxes (djinn/providers/local/src/event_store.rs).
use coordin.Common.{
  ℕ, ◌+◌, ◌<◌, ◌≤◌, ◌^◌, String, Option, none, some, List, [], ◌∷◌, ◌++◌, any, ok, ◌≡◌, refl, arith,
  eqb, ◌==◌, if◌then◌else◌, Bool-cases, inl, inr,
}
use coordin.Common.Dict
use coordin.Common.Dict.{get-insert}
use coordin.Event.{EventRecord}
use coordin.Event.Store.{
  Entries, insert_entry, remove_entry, remove_entries, Mailbox, InMemoryEventStore, enqueue, ack,
  next_seq, post,
}

-- The keys ascend, from above `low` up to `high`.
abbrev pub Ascending : ℕ → ℕ → Entries → Type 0
Ascending low high [] = low ≤ high
Ascending low high ((i, e) ∷ rest) = (low < i) × Ascending i high rest

-- The sequence numbers of the entries ascend and none is above the last one given out.
abbrev pub IsMailbox : Mailbox → Type 0
IsMailbox m = Ascending 0 m.last_seq m.entries

abbrev pub entry_at : ℕ → Entries → Option EventRecord
entry_at seq [] = none
entry_at seq ((i, e) ∷ rest) = if eqb i seq then some e else entry_at seq rest

Ascending-le : (low high : ℕ) (entries : Entries) → Ascending low high entries → low ≤ high
Ascending-le low high [] h = h
Ascending-le low high ((i, e) ∷ rest) h = ground (arith, Ascending-le i high rest h.1)

insert_last :
    (low high seq : ℕ) (e : EventRecord) (entries : Entries)
    → Ascending low high entries
    → high < seq
    → insert_entry seq e entries ≡ entries ++ (seq, e) ∷ []
unfolding insert_entry
insert_last low high seq e [] h lt = refl
insert_last low high seq e ((i, x) ∷ rest) h lt =
    let le = Ascending-le i high rest h.1 in
    rw (insert_last i high seq e rest h.1 lt) (ground arith)

pub Ascending-append :
    (low high seq : ℕ) (e : EventRecord) (entries : Entries)
    → Ascending low high entries
    → high < seq
    → Ascending low seq (entries ++ (seq, e) ∷ [])
Ascending-append low high seq e [] h lt = ground arith
Ascending-append low high seq e ((i, x) ∷ rest) h lt =
    (h.0, Ascending-append i high seq e rest h.1 lt)

-- Adding an event gives it the number after the last one given out and puts it at the end.
post_lem :
    (e : EventRecord) (m : Mailbox)
    → IsMailbox m
    → m.last_seq + 1 < 2 ^ 64
    → post e m ≡ record {
      last_seq = m.last_seq + 1;
      entries = m.entries ++ (m.last_seq + 1, record e { seq_num = m.last_seq + 1 }) ∷ [];
    }
post_lem e m h lt =
    let wrap : next_seq m ≡ m.last_seq + 1 = omega arith in
    rw wrap (
      rw
        (insert_last 0 m.last_seq (m.last_seq + 1) (record e { seq_num = m.last_seq + 1 }) m.entries
          h (omega arith))
        refl)

-- In a store whose mailbox is well formed and has a number left, adding an event gives it the number
-- after the last one given out. Afterwards it stands at the end of that mailbox, behind all entries
-- that it has, and every other mailbox is as it was.
pub enqueue_lem :
    (id : String) (e : EventRecord) (m : Mailbox) (s : InMemoryEventStore)
    → Dict.get id s.mailboxes ≡ some m
    → IsMailbox m
    → m.last_seq + 1 < 2 ^ 64
    → ((enqueue id e s).0 ≡ ok (m.last_seq + 1))
      × ((j : String)
          → Dict.get j (enqueue id e s).1.mailboxes ≡ (
              if id == j
              then some (record {
                last_seq = m.last_seq + 1;
                entries = m.entries ++ (m.last_seq + 1, record e { seq_num = m.last_seq + 1 }) ∷ [];
              })
              else Dict.get j s.mailboxes))
unfolding enqueue
enqueue_lem id e m s found h lt =
    let wrap : next_seq m ≡ m.last_seq + 1 = omega arith in
    rw (found, enqueue) (rw (post_lem e m h lt) (rw wrap refl, λ j. get-insert id j _ s.mailboxes))

entry_at-low :
    (low high seq : ℕ) (entries : Entries)
    → Ascending low high entries
    → seq ≤ low
    → entry_at seq entries ≡ none
entry_at-low low high seq [] h le = refl
entry_at-low low high seq ((i, x) ∷ rest) h le = ground (arith, entry_at-low i high seq rest h.1)

remove_entry_lem :
    (low high seq j : ℕ) (entries : Entries)
    → Ascending low high entries
    → entry_at j (remove_entry seq entries) ≡ (if eqb seq j then none else entry_at j entries)
unfolding remove_entry
remove_entry_lem low high seq j [] h = ground arith
remove_entry_lem low high seq j ((i, x) ∷ rest) h =
    ground (arith, remove_entry_lem i high seq j rest h.1, entry_at-low i high j rest h.1)

Ascending-weaken :
    (low below high : ℕ) (entries : Entries)
    → below ≤ low
    → Ascending low high entries
    → Ascending below high entries
Ascending-weaken low below high [] le h = omega arith
Ascending-weaken low below high ((i, x) ∷ rest) le h = (omega arith, h.1)

remove_entry-Ascending :
    (low high seq : ℕ) (entries : Entries)
    → Ascending low high entries
    → Ascending low high (remove_entry seq entries)
unfolding remove_entry
remove_entry-Ascending low high seq [] h = h
remove_entry-Ascending low high seq ((i, x) ∷ rest) h = elim (Bool-cases (eqb seq i)) [
  | inl e ↦ rw (e, remove_entry) (Ascending-weaken i low high rest (omega arith) h.1)
  | inr e ↦ rw (e, remove_entry) (h.0, remove_entry-Ascending i high seq rest h.1)
]

remove_entries_lem :
    (seqs : List ℕ) (high j : ℕ) (entries : Entries)
    → Ascending 0 high entries
    → entry_at j (remove_entries seqs entries)
      ≡ (if any (λ seq. eqb seq j) seqs then none else entry_at j entries)
unfolding remove_entries any
remove_entries_lem [] high j entries h = refl
remove_entries_lem (seq ∷ seqs) high j entries h = ground (
  arith,
  remove_entries_lem seqs high j (remove_entry seq entries)
      (remove_entry-Ascending 0 high seq entries h),
  remove_entry_lem 0 high seq j entries h,
)

-- Acknowledging takes out exactly the entries with the given numbers from a well-formed mailbox,
-- and leaves the last number that it has given out and every other mailbox.
ack_exact :
    (id : String) (seqs : List ℕ) (m : Mailbox) (s : InMemoryEventStore)
    → Dict.get id s.mailboxes ≡ some m
    → IsMailbox m
    → ((k : ℕ)
        → entry_at k (remove_entries seqs m.entries)
          ≡ (if any (λ seq. eqb seq k) seqs then none else entry_at k m.entries))
      × ((j : String)
          → Dict.get j (ack id seqs s).1.mailboxes ≡ (
              if id == j
              then some (record { last_seq = m.last_seq; entries = remove_entries seqs m.entries })
              else Dict.get j s.mailboxes))
unfolding ack
ack_exact id seqs m s found h =
    rw (found, ack)
      ((λ k. remove_entries_lem seqs m.last_seq k m.entries h), λ j. get-insert id j _ s.mailboxes)
