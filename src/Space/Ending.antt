-- ===== src/Space/Ending.antt =====
-- The end of a transaction on the Space, and leases that expire before it
-- (djinn/providers/local/src/space_store.rs).
use coordin.Common.{
  String, false, none, List, [], ◌∷◌, ◌++◌, ok, ◌≡◌, ◌≢◌, refl, arith, find, ap, ◌∙◌, Bool-cases,
  inl, inr, ◌==◌, eq_iff, eq_refl, All, for_each,
}
use coordin.Common.Dict
use coordin.Common.Dict.{Dict, get-remove, get-insert}
use coordin.Common.Keyed.{Distinct}
use coordin.Space.{TupleRecord}
use coordin.Space.Store.{
  InMemorySpaceStore, buffer, or_else, publish, forget, commit_txn, abort_txn, has_txn,
}

abbrev pub tuple_id : TupleRecord → String
tuple_id r = r.tuple_id

find-absent :
    (k : String) (rs : List TupleRecord)
    → All (λ r. tuple_id r ≢ k) rs
    → find (λ r. tuple_id r == k) rs ≡ none
unfolding find
find-absent k [] h = refl
find-absent k (r ∷ rs) h = ground (arith, find-absent k rs h.1, h.0, eq_iff (tuple_id r) k)

-- Publishing distinct tuples makes each of them visible and leaves the others.
publish_lem :
    (k : String) (rs : List TupleRecord) (s : InMemorySpaceStore)
    → Distinct tuple_id rs
    → Dict.get k (for_each rs publish s).tuples
      ≡ or_else (find (λ r. tuple_id r == k) rs) (Dict.get k s.tuples)
unfolding for_each find
publish_lem k [] s d = refl
publish_lem k (r ∷ rs) s d = elim (Bool-cases (tuple_id r == k)) [
  | inl same ↦
      let id_eq : tuple_id r ≡ k = (eq_iff (tuple_id r) k).0 same in
      let others : find (λ x. tuple_id x == k) rs ≡ none = find-absent k rs (rw (← id_eq) d.0) in
      rw (publish_lem k rs (publish r s) d.1) (rw (others, get-insert, same) refl)
  | inr other ↦ rw (publish_lem k rs (publish r s) d.1) (rw (get-insert, other) refl)
]

-- The loops change no buffer.
record SameBuffers (s t : InMemorySpaceStore) : Type 0 where
  uncommitted : t.uncommitted ≡ s.uncommitted
  taken : t.txn_taken ≡ s.txn_taken
  self_taken : t.txn_self_taken ≡ s.txn_self_taken

publish-SameBuffers :
    (rs : List TupleRecord) (s : InMemorySpaceStore) → SameBuffers s (for_each rs publish s)
unfolding for_each
publish-SameBuffers [] s = record { uncommitted = refl; taken = refl; self_taken = refl }
publish-SameBuffers (r ∷ rs) s =
    let h = publish-SameBuffers rs (publish r s) in
    record { uncommitted = h.uncommitted; taken = h.taken; self_taken = h.self_taken }

forget-SameBuffers :
    (rs : List TupleRecord) (s : InMemorySpaceStore)
    → SameBuffers s (for_each rs forget s) × ((for_each rs forget s).tuples ≡ s.tuples)
unfolding for_each
forget-SameBuffers [] s = (record { uncommitted = refl; taken = refl; self_taken = refl }, refl)
forget-SameBuffers (r ∷ rs) s =
    let (h, e) = forget-SameBuffers rs (forget r s) in
    (record { uncommitted = h.uncommitted; taken = h.taken; self_taken = h.self_taken }, e)

-- A commit of a transaction whose buffered writes have distinct ids returns those writes and all the
-- tuples that it took. Afterwards each buffered write is visible under its id, and every other id is
-- as it was, so that a taken tuple stays away.
pub commit_txn_exact :
    (txn_id : String) (s : InMemorySpaceStore)
    → Distinct tuple_id (buffer txn_id s.uncommitted)
    → ((commit_txn txn_id s).0
        ≡ ok (
          buffer txn_id s.uncommitted,
          buffer txn_id s.txn_taken ++ buffer txn_id s.txn_self_taken,
        ))
      × ((k : String)
          → Dict.get k (commit_txn txn_id s).1.tuples
            ≡ or_else
                (find (λ r. tuple_id r == k) (buffer txn_id s.uncommitted))
                (Dict.get k s.tuples))
unfolding commit_txn
commit_txn_exact txn_id s d =
    let s₁ = record s { uncommitted = Dict.remove txn_id s.uncommitted } in
    let same = publish-SameBuffers (buffer txn_id s.uncommitted) s₁ in
    (
      rw (same.taken, same.self_taken) refl,
      λ k. rw ((forget-SameBuffers _ _).1) (publish_lem k (buffer txn_id s.uncommitted) s₁ d),
    )

removed_buffer :
    (txn_id : String) (m : Dict (List TupleRecord)) → buffer txn_id (Dict.remove txn_id m) ≡ []
removed_buffer txn_id m = rw (get-remove, eq_refl) refl

no_state :
    (txn_id : String) (t : InMemorySpaceStore)
    → buffer txn_id t.uncommitted ≡ []
    → buffer txn_id t.txn_taken ≡ []
    → buffer txn_id t.txn_self_taken ≡ []
    → (has_txn txn_id t).0 ≡ ok false
unfolding has_txn
no_state txn_id t a b c = rw (a, b, c) refl

-- After a commit, as after an abort, the transaction has no state left in the Space, whatever it had.
txn_ends :
    (txn_id : String) (s : InMemorySpaceStore)
    → ((has_txn txn_id (commit_txn txn_id s).1).0 ≡ ok false)
      × ((has_txn txn_id (abort_txn txn_id s).1).0 ≡ ok false)
unfolding commit_txn abort_txn
txn_ends txn_id s =
    let at : Dict (List TupleRecord) → List TupleRecord = buffer txn_id in
    let s₁ = record s { uncommitted = Dict.remove txn_id s.uncommitted } in
    let published = publish-SameBuffers (buffer txn_id s.uncommitted) s₁ in
    let s₂ = for_each (buffer txn_id s.uncommitted) publish s₁ in
    let s₃ = record s₂ {
      txn_taken = Dict.remove txn_id s₂.txn_taken;
      txn_self_taken = Dict.remove txn_id s₂.txn_self_taken;
    } in
    let finalized =
      forget-SameBuffers (buffer txn_id s₂.txn_taken ++ buffer txn_id s₂.txn_self_taken) s₃ in
    let t₁ = record s {
      uncommitted = Dict.remove txn_id s.uncommitted;
      txn_self_taken = Dict.remove txn_id s.txn_self_taken;
    } in
    let discarded = buffer txn_id s.uncommitted ++ buffer txn_id s.txn_self_taken in
    let t₂ = for_each discarded forget t₁ in
    let forgotten = forget-SameBuffers discarded t₁ in
    let restored =
      publish-SameBuffers (buffer txn_id t₂.txn_taken)
        (record t₂ { txn_taken = Dict.remove txn_id t₂.txn_taken }) in
    (
      no_state txn_id (commit_txn txn_id s).1
          (ap at (finalized.0.uncommitted ∙ published.uncommitted)
            ∙ removed_buffer txn_id s.uncommitted)
          (ap at finalized.0.taken ∙ removed_buffer txn_id s₂.txn_taken)
          (ap at finalized.0.self_taken ∙ removed_buffer txn_id s₂.txn_self_taken),
      no_state txn_id (abort_txn txn_id s).1
          (ap at (restored.uncommitted ∙ forgotten.0.uncommitted)
            ∙ removed_buffer txn_id s.uncommitted)
          (ap at restored.taken ∙ removed_buffer txn_id t₂.txn_taken)
          (ap at (restored.self_taken ∙ forgotten.0.self_taken)
            ∙ removed_buffer txn_id s.txn_self_taken),
    )
