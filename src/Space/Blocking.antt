-- ===== src/Space/Blocking.antt =====
-- What a read that waits for a tuple answers (djinn/crates/coordin8-space/src/manager.rs).
use coordin.Common.{
  String, Bool, true, Option, none, some, List, [], ◌∷◌, ◌++◌, Result, ok, ◌≡◌, refl, find, arith,
  find-In, Option-cases, Bool-cases, inl, inr,
}
use coordin.Common.Dict
use coordin.Common.Dict.{Dict}
use coordin.Error.{Error}
use coordin.Lease.Leasing.{Leasing}
use coordin.Space.{TupleRecord}
use coordin.Space.Store.{matches_tuple, own_writes, or_else, find_match}
use coordin.Space.Manager.{SpaceManager, TxnEnlister, try_read}
use coordin.Space.Waiting.{Wakeup, Answer, read_woken, wait_to_read, read}

-- The answer is a tuple that the template matches.
abbrev pub Answers : Dict String → Result Error (Option TupleRecord) → Type 0
Answers template result =
    (r : TupleRecord) × ((result ≡ ok (some r)) × (matches_tuple template r ≡ true))

found_either :
    (p : TupleRecord → Bool) (xs ys : List TupleRecord) (r : TupleRecord)
    → or_else (find p xs) (find p ys) ≡ some r
    → p r ≡ true
found_either p xs ys r h = elim (Option-cases (find p xs)) [
  | inl e ↦ (find-In p ys r (ground arith)).1
  | inr (x, e) ↦ (find-In p xs r (ground arith)).1
]

module _ {L N : Type 0} (leasing : Leasing L) (enlister : Option (TxnEnlister N))
    (template : Dict String) (txn_id : Option String) where
  woken-Answers :
      (event : Option TupleRecord) (later : SpaceManager L N → Answer (SpaceManager L N))
      (s : SpaceManager L N)
      → ((t : SpaceManager L N) → Answers template (later t).0)
      → Answers template (read_woken leasing enlister template txn_id event later s).0
  unfolding try_read find_match
  woken-Answers none later s h =
      let xs = Dict.values s.store.tuples in
      let ys = own_writes txn_id s.store in
      let p = matches_tuple template in
      elim (Option-cases (or_else (find p xs) (find p ys))) [
        | inl e ↦ rw e (h s)
        | inr (r, e) ↦ rw e (r, (refl, found_either p xs ys r e))
      ]
  woken-Answers (some r) later s h = elim (Bool-cases (matches_tuple template r)) [
    | inl e ↦ rw e (r, (refl, e))
    | inr e ↦ rw e (h s)
  ]

  wait-Answers :
      (before after : List (Wakeup L N)) (r : TupleRecord)
      (since : SpaceManager L N → SpaceManager L N) (s : SpaceManager L N)
      → matches_tuple template r ≡ true
      → Answers template
          (wait_to_read leasing enlister template txn_id
            (before ++ record { event = some r; since = since } ∷ after)
            s).0
  unfolding wait_to_read
  wait-Answers [] after r since s m = rw m (r, (refl, m))
  wait-Answers (w ∷ before) after r since s m =
      woken-Answers w.event _ (w.since s) (λ t. wait-Answers before after r since t m)

  -- A read that waits, to which a tuple is broadcast that its template matches, whatever it is told
  -- before and whatever others do meanwhile: it answers with a tuple that the template matches.
  pub read-Answers :
      (before after : List (Wakeup L N)) (r : TupleRecord)
      (since : SpaceManager L N → SpaceManager L N) (s : SpaceManager L N)
      → matches_tuple template r ≡ true
      → Answers template
          (read leasing enlister template txn_id true
            (before ++ record { event = some r; since = since } ∷ after)
            s).0
  unfolding read try_read find_match
  read-Answers before after r since s m =
      let xs = Dict.values s.store.tuples in
      let ys = own_writes txn_id s.store in
      let p = matches_tuple template in
      elim (Option-cases (or_else (find p xs) (find p ys))) [
        | inl e ↦ rw e (wait-Answers before after r since s m)
        | inr (x, e) ↦ rw e (x, (refl, found_either p xs ys x e))
      ]
