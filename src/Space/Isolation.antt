-- ===== src/Space/Isolation.antt =====
-- A transaction's work on the Space until it ends (djinn/providers/local/src/space_store.rs).
use coordin.Common.{
  String, Option, some, List, [], ◌∷◌, ◌++◌, Result, ◌≡◌, refl, arith, In, here, there,
  Option-cases, Bool-cases, inl, inr, ◌⊎◌, ◌==◌, eq_iff, eq_refl, for_each, In-append_left,
  In-append_right,
}
use coordin.Common.Dict
use coordin.Common.Dict.{Dict, get-remove, get-insert}
use coordin.Common.Keyed.{insert-IsKeyed, remove-IsKeyed, get-IsKeyed}
use coordin.Error.{Error}
use coordin.Space.{TupleRecord}
use coordin.Space.Store.{
  InMemorySpaceStore, insert_uncommitted, take_match, buffer, publish, forget, abort_txn,
}
use coordin.Space.Taking.{IsTuples, Take, own, committed, nothing, take_match-Take}

-- The operations of one transaction on the store.
pub data Op : Type 0 where
  writes : TupleRecord → Op
  takes : Dict String → Op

abbrev pub step : String → Op → InMemorySpaceStore → InMemorySpaceStore
step txn_id (writes r) s = (insert_uncommitted txn_id r s).1
step txn_id (takes template) s = (take_match template (some txn_id) s).1

abbrev pub run : String → List Op → InMemorySpaceStore → InMemorySpaceStore
run txn_id [] s = s
run txn_id (op ∷ ops) s = run txn_id ops (step txn_id op s)

-- Each tuple of `m` is in `n`, under the same id.
abbrev pub Within : Dict TupleRecord → Dict TupleRecord → Type 0
Within m n = (k : String) (r : TupleRecord) → Dict.get k m ≡ some r → Dict.get k n ≡ some r

-- What was visible in `m` is visible in `tuples` or among the tuples `taken`, and nothing else is.
record Split (m tuples : Dict TupleRecord) (taken : List TupleRecord) : Type 0 where
  origin : IsTuples m
  keyed : IsTuples tuples
  visible : Within tuples m
  held : (r : TupleRecord) → In r taken → Dict.get r.tuple_id m ≡ some r
  covered :
      (k : String) (r : TupleRecord)
      → Dict.get k m ≡ some r
      → (Dict.get k tuples ≡ some r) ⊎ In r taken

In-snoc : (r x : TupleRecord) (rs : List TupleRecord) → In x (rs ++ r ∷ []) → In x rs ⊎ (x ≡ r)
In-snoc r x [] (here e) = inr e
In-snoc r x [] (there i) = elim i [ ]
In-snoc r x (y ∷ rs) (here e) = inl (here e)
In-snoc r x (y ∷ rs) (there i) = elim (In-snoc r x rs i) [ inl j ↦ inl (there j) | inr e ↦ inr e ]

-- A visible tuple that is taken leaves the visible ones and joins the taken ones.
taken-Split :
    (m tuples : Dict TupleRecord) (taken : List TupleRecord) (r : TupleRecord)
    → Split m tuples taken
    → Dict.get r.tuple_id tuples ≡ some r
    → Split m (Dict.remove r.tuple_id tuples) (taken ++ r ∷ [])
taken-Split m tuples taken r h found = record {
  origin = h.origin;
  keyed = remove-IsKeyed (λ (r : TupleRecord). r.tuple_id) r.tuple_id tuples h.keyed;
  visible = λ k x e. ground (arith, get-remove r.tuple_id k tuples, h.visible k x);
  held = λ x i. elim (In-snoc r x taken i) [
    | inl j ↦ h.held x j
    | inr same ↦ rw same (h.visible r.tuple_id r found)
  ];
  covered = λ k x e. elim (h.covered k x e) [
    | inr j ↦ inr (In-append_left taken (r ∷ []) j)
    | inl f ↦ elim (Bool-cases (r.tuple_id == k)) [
      | inl same ↦
          let k_eq : r.tuple_id ≡ k = (eq_iff r.tuple_id k).0 same in
          inr (In-append_right taken (r ∷ []) (here (cc)))
      | inr other ↦ inl (ground (arith, get-remove r.tuple_id k tuples, other))
    ]
  ];
}

put_here :
    (r : TupleRecord) (tuples : Dict TupleRecord) (k : String)
    → r.tuple_id ≡ k
    → Dict.get k (Dict.insert r.tuple_id r tuples) ≡ some r
put_here r tuples k e = ground (arith, get-insert r.tuple_id k r tuples, eq_iff r.tuple_id k)

-- A taken tuple that is put back is visible again.
put-Split :
    (m tuples : Dict TupleRecord) (taken : List TupleRecord) (r : TupleRecord)
    → Split m tuples (r ∷ taken)
    → Split m (Dict.insert r.tuple_id r tuples) taken
put-Split m tuples taken r h = record {
  origin = h.origin;
  keyed = insert-IsKeyed (λ (r : TupleRecord). r.tuple_id) r.tuple_id r tuples refl h.keyed;
  visible = λ k x e. ground (
    arith,
    get-insert r.tuple_id k r tuples,
    h.visible k x,
    h.held r (here refl),
    eq_iff r.tuple_id k,
  );
  held = λ x i. h.held x (there i);
  covered = λ k x e. elim (h.covered k x e) [
    | inl f ↦ inl (
        ground (
          arith,
          get-insert r.tuple_id k r tuples,
          e,
          f,
          h.held r (here refl),
          eq_iff r.tuple_id k,
        ))
    | inr (here same) ↦
        let id_eq : x.tuple_id ≡ k =
          get-IsKeyed (λ (r : TupleRecord). r.tuple_id) k x m h.origin e in
        inl (rw same (put_here r tuples k (rw (← same) id_eq)))
    | inr (there i) ↦ inr i
  ];
}

-- At a single id, a lookup is decided by what it finds.
same_get :
    (k : String) (m n : Dict TupleRecord) → Within m n → Within n m → Dict.get k m ≡ Dict.get k n
same_get k m n f g = elim (Option-cases (Dict.get k n)) [
  | inr (r, e) ↦ rw (e, g k r e)
  | inl e ↦ elim (Option-cases (Dict.get k m)) [
    | inl x ↦ rw (e, x)
    | inr (r, x) ↦ absurd (ground (arith, f k r x))
  ]
]

restore :
    (m : Dict TupleRecord) (taken : List TupleRecord) (s : InMemorySpaceStore)
    → Split m s.tuples taken
    → (k : String) → Dict.get k (for_each taken publish s).tuples ≡ Dict.get k m
unfolding for_each
restore m [] s h k =
    same_get k s.tuples m h.visible
      (λ j r e. elim (h.covered j r e) [ inl f ↦ f | inr i ↦ elim i [ ] ])
restore m (r ∷ taken) s h k = restore m taken (publish r s) (put-Split m s.tuples taken r h) k

-- The loops that only forget leases leave the tuples as they are.
forgets :
    (rs : List TupleRecord) (s : InMemorySpaceStore)
    → ((for_each rs forget s).tuples ≡ s.tuples) × ((for_each rs forget s).txn_taken ≡ s.txn_taken)
unfolding for_each
forgets [] s = (refl, refl)
forgets (r ∷ rs) s = forgets rs (forget r s)

keeps-Split :
    (txn_id : String) (m : Dict TupleRecord) (template : Dict String) (s t : InMemorySpaceStore)
    (result : Result Error (Option TupleRecord))
    → Split m s.tuples (buffer txn_id s.txn_taken)
    → Take template (some txn_id) s result t
    → Split m t.tuples (buffer txn_id t.txn_taken)
keeps-Split txn_id m template s t result h (own r before after e q split left tuples_eq taken_eq) =
    rw (tuples_eq, taken_eq) h
keeps-Split txn_id m template s t result h (committed r e q found tuples_eq taken_eq own_eq f) =
    rw (tuples_eq, taken_eq)
      (rw (get-insert, eq_refl) (taken-Split m s.tuples (buffer txn_id s.txn_taken) r h found))
keeps-Split txn_id m template s t result h (nothing e same f g) = rw same h

run-Split :
    (txn_id : String) (m : Dict TupleRecord) (ops : List Op) (s : InMemorySpaceStore)
    → Split m s.tuples (buffer txn_id s.txn_taken)
    → Split m (run txn_id ops s).tuples (buffer txn_id (run txn_id ops s).txn_taken)
run-Split txn_id m [] s h = h
run-Split txn_id m (writes r ∷ ops) s h =
    run-Split txn_id m ops (step txn_id (writes r) s) (unfold insert_uncommitted in h)
run-Split txn_id m (takes template ∷ ops) s h =
    run-Split txn_id m ops (step txn_id (takes template) s) (
      keeps-Split txn_id m template s (take_match template (some txn_id) s).1
        (take_match template (some txn_id) s).0 h
        (take_match-Take template (some txn_id) s h.keyed))

start-Split :
    (txn_id : String) (s : InMemorySpaceStore)
    → IsTuples s.tuples
    → buffer txn_id s.txn_taken ≡ []
    → Split s.tuples s.tuples (buffer txn_id s.txn_taken)
start-Split txn_id s keyed fresh = record {
  origin = keyed;
  keyed = keyed;
  visible = λ k r e. e;
  held = rw fresh (λ r i. elim i [ ]);
  covered = λ k r e. inl e;
}

abort_txn-tuples :
    (txn_id : String) (m : Dict TupleRecord) (s : InMemorySpaceStore)
    → Split m s.tuples (buffer txn_id s.txn_taken)
    → (k : String) → Dict.get k (abort_txn txn_id s).1.tuples ≡ Dict.get k m
unfolding abort_txn
abort_txn-tuples txn_id m s h k =
    let discarded = buffer txn_id s.uncommitted ++ buffer txn_id s.txn_self_taken in
    let s₁ = record s {
      uncommitted = Dict.remove txn_id s.uncommitted;
      txn_self_taken = Dict.remove txn_id s.txn_self_taken;
    } in
    let s₂ = for_each discarded forget s₁ in
    restore m (buffer txn_id s₂.txn_taken)
      (record s₂ { txn_taken = Dict.remove txn_id s₂.txn_taken })
      (rw ((forgets discarded s₁).0, (forgets discarded s₁).1) h) k

-- Whatever a transaction writes and takes, where it holds no tuple at the start and each visible
-- tuple stands under its own id, an abort leaves under every id exactly the tuple that was visible
-- before.
pub run-abort_txn :
    (txn_id : String) (ops : List Op) (s : InMemorySpaceStore)
    → IsTuples s.tuples
    → buffer txn_id s.txn_taken ≡ []
    → (k : String) → Dict.get k (abort_txn txn_id (run txn_id ops s)).1.tuples ≡ Dict.get k s.tuples
run-abort_txn txn_id ops s keyed fresh =
    abort_txn-tuples txn_id s.tuples (run txn_id ops s)
      (run-Split txn_id s.tuples ops s (start-Split txn_id s keyed fresh))

-- Whatever a transaction writes and takes, where it holds no tuple at the start and each visible
-- tuple stands under its own id, nothing that it wrote is visible before it ends: a tuple that is
-- visible after its operations was visible under the same id before.
run-Within :
    (txn_id : String) (ops : List Op) (s : InMemorySpaceStore)
    → IsTuples s.tuples
    → buffer txn_id s.txn_taken ≡ []
    → (k : String) (r : TupleRecord) → Dict.get k (run txn_id ops s).tuples ≡ some r
    → Dict.get k s.tuples ≡ some r
run-Within txn_id ops s keyed fresh =
    (run-Split txn_id s.tuples ops s (start-Split txn_id s keyed fresh)).visible
