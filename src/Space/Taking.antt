-- ===== src/Space/Taking.antt =====
-- What a take gives and what it leaves (djinn/providers/local/src/space_store.rs).
use coordin.Common.{
  String, Bool, true, false, Option, none, some, List, [], ◌∷◌, ◌++◌, Result, ok, ◌≡◌, refl, find,
  In, here, there, find-In, find-none, Option-cases, Bool-cases, inl, inr, eq_refl, ap,
}
use coordin.Common.Dict
use coordin.Common.Dict.{Dict, get-remove, get-insert, In-get, get-In, IsDict}
use coordin.Common.Keyed.{IsKeyed, IsKeyed-IsDict, get-IsKeyed}
use coordin.Error.{Error}
use coordin.Space.{TupleRecord}
use coordin.Space.Store.{
  InMemorySpaceStore, remove_first, take_match, take_committed, keep_first, matches_tuple, buffer,
  push, hold, own_writes,
}

abbrev pub IsTuples : Dict TupleRecord → Type 0
IsTuples = IsKeyed (λ (r : TupleRecord). r.tuple_id)

-- How the first that passes is cut out of a list.
pub data Cut (p : TupleRecord → Bool) (rs : List TupleRecord)
    (found : Option (TupleRecord × List TupleRecord)) : Type 0 where
  absent : found ≡ none → ((r : TupleRecord) → In r rs → p r ≡ false) → Cut p rs found
  cut :
      (r : TupleRecord) (before after : List TupleRecord)
      → found ≡ some (r, before ++ after)
      → rs ≡ before ++ r ∷ after
      → p r ≡ true
      → Cut p rs found

fails-cons :
    (p : TupleRecord → Bool) (r : TupleRecord) (rs : List TupleRecord)
    → p r ≡ false
    → ((x : TupleRecord) → In x rs → p x ≡ false)
    → (x : TupleRecord) → In x (r ∷ rs)
    → p x ≡ false
fails-cons p r rs e f x (here same) = rw same e
fails-cons p r rs e f x (there i) = f x i

keep-Cut :
    (p : TupleRecord → Bool) (r : TupleRecord) (rs : List TupleRecord)
    (found : Option (TupleRecord × List TupleRecord))
    → p r ≡ false
    → Cut p rs found
    → Cut p (r ∷ rs) (keep_first r found)
keep-Cut p r rs found e (absent n f) = absent (rw n refl) (fails-cons p r rs e f)
keep-Cut p r rs found e (cut x before after n split q) =
    cut x (r ∷ before) after (rw n refl) (ap (λ ys. r ∷ ys) split) q

pub remove_first-Cut :
    (p : TupleRecord → Bool) (rs : List TupleRecord) → Cut p rs (remove_first p rs)
unfolding remove_first
remove_first-Cut p [] = absent refl (λ r i. elim i [ ])
remove_first-Cut p (r ∷ rs) = elim (Bool-cases (p r)) [
  | inl e ↦ rw (e, remove_first) (cut r [] rs refl refl e)
  | inr e ↦ rw (e, remove_first) (keep-Cut p r rs (remove_first p rs) e (remove_first-Cut p rs))
]

-- What `take_match` does: `own` takes from the transaction's own writes, `committed`, where none of
-- those matches, from the visible tuples, which a transaction then holds.
pub data Take (template : Dict String) (txn_id : Option String) (s : InMemorySpaceStore)
    (result : Result Error (Option TupleRecord)) (t : InMemorySpaceStore) : Type 0 where
  own :
      (r : TupleRecord) (before after : List TupleRecord)
      → result ≡ ok (some r)
      → matches_tuple template r ≡ true
      → own_writes txn_id s ≡ before ++ r ∷ after
      → own_writes txn_id t ≡ before ++ after
      → t.tuples ≡ s.tuples
      → t.txn_taken ≡ s.txn_taken
      → Take template txn_id s result t
  committed :
      (r : TupleRecord)
      → result ≡ ok (some r)
      → matches_tuple template r ≡ true
      → Dict.get r.tuple_id s.tuples ≡ some r
      → t.tuples ≡ Dict.remove r.tuple_id s.tuples
      → t.txn_taken ≡ elim txn_id [ none ↦ s.txn_taken | some id ↦ push id r s.txn_taken ]
      → own_writes txn_id t ≡ own_writes txn_id s
      → ((x : TupleRecord) → In x (own_writes txn_id s) → matches_tuple template x ≡ false)
      → Take template txn_id s result t
  nothing :
      result ≡ ok none
      → t ≡ s
      → ((r : TupleRecord) → In r (Dict.values s.tuples) → matches_tuple template r ≡ false)
      → ((r : TupleRecord) → In r (own_writes txn_id s) → matches_tuple template r ≡ false)
      → Take template txn_id s result t

value-fails :
    (p : TupleRecord → Bool) (m : Dict TupleRecord)
    → ((e : String × TupleRecord) → In e m → p e.1 ≡ false)
    → (r : TupleRecord) → In r (Dict.values m)
    → p r ≡ false
value-fails p [] f r i = elim i [ ]
value-fails p ((k, v) ∷ m) f r (here e) = rw e (f (k, v) (here refl))
value-fails p ((k, v) ∷ m) f r (there i) = value-fails p m (λ e j. f e (there j)) r i

-- A tuple that iteration meets stands under its own id.
met-keyed :
    (k : String) (r : TupleRecord) (m : Dict TupleRecord)
    → IsTuples m
    → In (k, r) m
    → (r.tuple_id ≡ k) × (Dict.get k m ≡ some r)
met-keyed k r m h i =
    let found = In-get k r m (IsKeyed-IsDict (λ (r : TupleRecord). r.tuple_id) m h) i in
    (get-IsKeyed (λ (r : TupleRecord). r.tuple_id) k r m h found, found)

held-Take :
    (template : Dict String) (txn_id : Option String) (s : InMemorySpaceStore) (k : String)
    (r : TupleRecord)
    → r.tuple_id ≡ k
    → Dict.get k s.tuples ≡ some r
    → matches_tuple template r ≡ true
    → ((x : TupleRecord) → In x (own_writes txn_id s) → matches_tuple template x ≡ false)
    → Take template txn_id s (ok (some r)) (
        hold txn_id r (record s {
          tuples = Dict.remove k s.tuples;
          lease_index = Dict.remove r.lease_id s.lease_index;
        }))
held-Take template none s k r e found q f = committed r refl q (cc) (cc) refl refl f
held-Take template (some id) s k r e found q f = committed r refl q (cc) (cc) refl refl f

take_committed-Take :
    (template : Dict String) (txn_id : Option String) (s : InMemorySpaceStore)
    → IsTuples s.tuples
    → ((r : TupleRecord) → In r (own_writes txn_id s) → matches_tuple template r ≡ false)
    → Take template txn_id s
        (take_committed template txn_id s).0
        (take_committed template txn_id s).1
unfolding take_committed
take_committed-Take template txn_id s keyed f =
    elim (Option-cases (find (λ e. matches_tuple template e.1) s.tuples)) [
      | inl e ↦
          rw (e, take_committed)
            (nothing refl refl
              (value-fails (matches_tuple template) s.tuples
                (λ x i. find-none (λ e. matches_tuple template e.1) s.tuples e i))
              f)
      | inr ((k, r), e) ↦
          let (met, q) = find-In (λ e. matches_tuple template e.1) s.tuples (k, r) e in
          let (id_eq, found) = met-keyed k r s.tuples keyed met in
          rw (e, take_committed) (held-Take template txn_id s k r id_eq found q f)
    ]

own-Take :
    (template : Dict String) (id : String) (s : InMemorySpaceStore)
    → IsTuples s.tuples
    → Cut
        (matches_tuple template)
        (buffer id s.uncommitted)
        (remove_first (matches_tuple template) (buffer id s.uncommitted))
    → Take template
        (some id)
        s
        (take_match template (some id) s).0
        (take_match template (some id) s).1
unfolding take_match
own-Take template id s keyed (absent n f) =
    rw (n, take_match) (take_committed-Take template (some id) s keyed f)
own-Take template id s keyed (cut r before after n split q) =
    rw (n, take_match) (own r before after refl q split (rw (get-insert, eq_refl)) refl refl)

-- A take, with distinct visible tuples: it takes a matching tuple of the transaction's own writes if
-- there is one, else a matching visible tuple, and removes exactly the tuple it returns from where it
-- was. A visible tuple taken in a transaction is added to those it holds. It returns nothing only if
-- neither has a matching tuple, and then changes nothing.
pub take_match-Take :
    (template : Dict String) (txn_id : Option String) (s : InMemorySpaceStore)
    → IsTuples s.tuples
    → Take template txn_id s (take_match template txn_id s).0 (take_match template txn_id s).1
unfolding take_match
take_match-Take template none s keyed =
    take_committed-Take template none s keyed (λ r i. elim i [ ])
take_match-Take template (some id) s keyed =
    own-Take template id s keyed
      (remove_first-Cut (matches_tuple template) (buffer id s.uncommitted))
