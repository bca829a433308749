-- ===== src/Event/Fifo.antt =====
-- The order of the events in a durable mailbox (djinn/providers/local/src/event_store.rs).
use coordin.Common.{
  ℕ, zero, suc, ap, ◌+◌, ◌<◌, ◌≤◌, ◌^◌, String, some, List, [], ◌∷◌, ◌++◌, map, take, filter,
  length, ok, ◌≡◌, refl, arith, ltb, eq_refl, append_assoc, append-nil,
}
use coordin.Common.Dict
use coordin.Common.Dict.{get-insert}
use coordin.Event.{EventRecord}
use coordin.Event.Store.{Entries, Mailbox, default_mailbox, InMemoryEventStore, enqueue, peek}
use coordin.Event.Mailbox.{Ascending, Ascending-append, enqueue_lem}

-- The events that a mailbox holds once it was given `es` after number `n`.
abbrev pub number : ℕ → List EventRecord → Entries
number n [] = []
number n (e ∷ es) = (n + 1, record e { seq_num = n + 1 }) ∷ number (n + 1) es

abbrev pub enqueue_all : String → List EventRecord → InMemoryEventStore → InMemoryEventStore
enqueue_all id [] s = s
enqueue_all id (e ∷ es) s = enqueue_all id es (enqueue id e s).1

post_all :
    (id : String) (es : List EventRecord) (n k : ℕ) (xs : Entries) (s : InMemoryEventStore)
    → Dict.get id s.mailboxes ≡ some (record { last_seq = n; entries = xs })
    → Ascending 0 n xs
    → n + length es ≡ k
    → k < 2 ^ 64
    → Dict.get id (enqueue_all id es s).mailboxes
      ≡ some (record { last_seq = k; entries = xs ++ number n es })
post_all id [] n k xs s found h sum lt =
    let same : n ≡ k = omega arith in rw (append-nil, ← same) found
post_all id (e ∷ es) n k xs s found h sum lt =
    let m : Mailbox = record { last_seq = n; entries = xs } in
    let added : Entries = xs ++ (n + 1, record e { seq_num = n + 1 }) ∷ [] in
    let later : Dict.get id (enqueue id e s).1.mailboxes
        ≡ some (record { last_seq = n + 1; entries = added }) =
      ground (arith, (enqueue_lem id e m s found h (omega arith)).1 id, eq_refl id) in
    let regroup : added ++ number (n + 1) es ≡ xs ++ number n (e ∷ es) = rw append_assoc refl in
    rw (← regroup) (
      post_all id es (n + 1) k added (enqueue id e s).1 later
        (Ascending-append 0 n (n + 1) (record e { seq_num = n + 1 }) xs h (omega arith))
        (omega arith) lt)

filter-number :
    (low n : ℕ) (es : List EventRecord)
    → low ≤ n
    → filter (λ e. ltb low e.0) (number n es) ≡ number n es
unfolding filter
filter-number low n [] h = refl
filter-number low n (e ∷ es) h = rw (filter-number low (n + 1) es (omega arith)) (ground arith)

take_all : (es : List EventRecord) (n k : ℕ) → length es ≤ k → take k (number n es) ≡ number n es
take_all [] n zero h = refl
take_all [] n (suc k) h = refl
take_all (e ∷ es) n zero h = absurd (omega arith)
take_all (e ∷ es) n (suc k) h =
    ap (λ xs. (n + 1, record e { seq_num = n + 1 }) ∷ xs) (take_all es (n + 1) k (omega arith))

-- Any events that are given to a new mailbox, as many as fit 64-bit numbers, come back from a peek
-- that starts at 0 and may return that many: all of them, in the order in which they were given, and
-- numbered from 1 on.
pub enqueue_all-peek :
    (id : String) (es : List EventRecord) (limit : ℕ) (s : InMemoryEventStore)
    → Dict.get id s.mailboxes ≡ some default_mailbox
    → length es < 2 ^ 64
    → length es ≤ limit
    → (peek id 0 limit (enqueue_all id es s)).0 ≡ ok (map (λ e. e.1) (number 0 es))
unfolding peek
enqueue_all-peek id es limit s found lt le =
    rw (post_all id es 0 (length es) [] s found (omega arith) (omega arith) lt)
      (rw (filter-number 0 0 es (omega arith), take_all es 0 limit le) refl)
