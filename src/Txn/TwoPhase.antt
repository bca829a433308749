-- ===== src/Txn/TwoPhase.antt =====
-- The decision of a commit (djinn/crates/coordin8-txn/src/manager.rs): what it answers, what it
-- records, and whom it calls.
use coordin.Common.{
  String, true, false, some, List, [], ◌∷◌, ◌++◌, all, Result, ok, err, ◌≡◌, refl, arith, eq_refl,
  Bool-cases, inl, inr, append_assoc,
}
use coordin.Common.Dict
use coordin.Common.Dict.{get-insert}
use coordin.Error.{Error, transaction_aborted}
use coordin.Lease.Leasing.{Leasing}
use coordin.Txn.{
  TransactionState, active, voting, prepared, committed, aborted, ParticipantRecord,
  TransactionRecord, same_state,
}
use coordin.Txn.Store
use coordin.Txn.Store.{InMemoryTxnStore}
use coordin.Txn.Participants.{Call, Network}
use coordin.Txn.Manager.{
  TxnManager, Votes, prepare_calls, commit, commit_claimed, commit_two_phase, fetch, transition,
  release,
}
use coordin.Txn.Calls.{
  prepares, commits, aborts, is_yes, prepared_voters, tally-yes, tally-no, commit_calls_lem,
  do_abort_participants_lem, prepare_calls_state,
}

same_state_refl : (a : TransactionState) → same_state a a ≡ true
same_state_refl active = refl
same_state_refl voting = refl
same_state_refl prepared = refl
same_state_refl committed = refl
same_state_refl aborted = refl

-- The compare-and-set from the recorded state.
pub update_state_if_lem :
    (txn_id : String) (from to : TransactionState) (r : TransactionRecord) (m : InMemoryTxnStore)
    → Dict.get txn_id m ≡ some r
    → r.state ≡ from
    → Store.update_state_if txn_id from to m
      ≡ (ok true, Dict.insert txn_id (record r { state = to }) m)
unfolding Store.update_state_if
update_state_if_lem txn_id from to r m h e = ground (arith, same_state_refl from)

module _ {L : Type 0} where
  abbrev pub put : String → TransactionState → TransactionRecord → TxnManager L → TxnManager L
  put txn_id to r s = record s { store = Dict.insert txn_id (record r { state = to }) s.store }

  abbrev pub claim : String → TransactionRecord → TxnManager L → TxnManager L
  claim txn_id r s = put txn_id voting r s

  abbrev pub dialled : List Call → TxnManager L → TxnManager L
  dialled calls s = record s { calls = s.calls ++ calls }

  pub get-put :
      (txn_id : String) (to : TransactionState) (r : TransactionRecord) (s : TxnManager L)
      → Dict.get txn_id (put txn_id to r s).store ≡ some (record r { state = to })
  get-put txn_id to r s = rw (get-insert, eq_refl)

  -- A transition from the recorded state succeeds and changes only that state.
  pub transition_lem :
      (txn_id : String) (from to : TransactionState) (r : TransactionRecord) (s : TxnManager L)
      → Dict.get txn_id s.store ≡ some r
      → r.state ≡ from
      → transition txn_id from to s
        ≡ (ok tt, record s { store = Dict.insert txn_id (record r { state = to }) s.store })
  unfolding transition
  transition_lem txn_id from to r s h e = rw (update_state_if_lem txn_id from to r s.store h e)

module _ {L : Type 0} (leasing : Leasing L) (net : Network) where
  pub commit-active :
      (txn_id : String) (r : TransactionRecord) (s : TxnManager L)
      → Dict.get txn_id s.store ≡ some r
      → r.state ≡ active
      → commit leasing net txn_id s
        ≡ commit_claimed leasing net txn_id
            (record r { state = voting })
            r.participants
            (claim txn_id r s)
  unfolding commit fetch Store.get
  commit-active txn_id r s h e =
      rw (update_state_if_lem txn_id active voting r s.store h e) (rw (get-insert, eq_refl))

  -- The votes of phase one on the transaction `r`.
  abbrev pub votes_of : String → TransactionRecord → TxnManager L → Votes
  votes_of txn_id r s = (prepare_calls net txn_id r.participants (claim txn_id r s)).0

  -- The outcome of a two-phase commit of `r` that started in `s`.
  pub data TwoPhase (txn_id : String) (r : TransactionRecord) (s : TxnManager L)
      (result : Result Error Unit) (t : TxnManager L) : Type 0 where
    all_yes :
        all is_yes (votes_of txn_id r s) ≡ true
        → result ≡ ok tt
        → Dict.get txn_id t.store ≡ some (record r { state = committed })
        → t.calls
          ≡ s.calls
            ++ prepares txn_id r.participants
            ++ commits txn_id (prepared_voters (votes_of txn_id r s))
        → TwoPhase txn_id r s result t
    some_no :
        all is_yes (votes_of txn_id r s) ≡ false
        → result ≡ err (transaction_aborted txn_id)
        → Dict.get txn_id t.store ≡ some (record r { state = aborted })
        → t.calls ≡ s.calls ++ prepares txn_id r.participants ++ aborts txn_id r.participants
        → TwoPhase txn_id r s result t

  abbrev pub after_prepare : String → TransactionRecord → TxnManager L → TxnManager L
  after_prepare txn_id r s = dialled (prepares txn_id r.participants) (claim txn_id r s)

  pub two_phase-yes :
      (txn_id : String) (r : TransactionRecord) (s : TxnManager L)
      → all is_yes (votes_of txn_id r s) ≡ true
      → commit_two_phase leasing net txn_id (record r { state = voting }) (claim txn_id r s)
        ≡ release leasing net r (
            put txn_id committed r (
              dialled
                (commits txn_id (prepared_voters (votes_of txn_id r s)))
                (put txn_id prepared r (after_prepare txn_id r s))))
  unfolding commit_two_phase
  two_phase-yes txn_id r s all_in =
      let s₁ = after_prepare txn_id r s in
      let s₂ = put txn_id prepared r s₁ in
      let eps = prepared_voters (votes_of txn_id r s) in
      rw (tally-yes [] (votes_of txn_id r s) all_in) (
        rw (prepare_calls_state net txn_id r.participants (claim txn_id r s)) (
          rw
            (transition_lem txn_id voting prepared (record r { state = voting }) s₁
              (get-put txn_id voting r s) refl)
            (rw (commit_calls_lem txn_id eps s₂) (
              rw
                (transition_lem txn_id prepared committed (record r { state = prepared })
                  (dialled (commits txn_id eps) s₂) (get-put txn_id prepared r s₁) refl)
                refl))))

  pub two_phase-no :
      (txn_id : String) (r : TransactionRecord) (s : TxnManager L)
      → all is_yes (votes_of txn_id r s) ≡ false
      → commit_two_phase leasing net txn_id (record r { state = voting }) (claim txn_id r s) ≡ (
        err (transaction_aborted txn_id),
        (release leasing net r (
            dialled
              (aborts txn_id r.participants)
              (put txn_id aborted r (after_prepare txn_id r s)))).1,
      )
  unfolding commit_two_phase
  two_phase-no txn_id r s refused =
      let s₁ = after_prepare txn_id r s in
      rw ((tally-no [] (votes_of txn_id r s) refused).1) (
        rw (prepare_calls_state net txn_id r.participants (claim txn_id r s)) (
          rw
            (transition_lem txn_id voting aborted (record r { state = voting }) s₁
              (get-put txn_id voting r s) refl)
            (rw (do_abort_participants_lem txn_id r.participants (put txn_id aborted r s₁)) refl)))

  two_phase_lem :
      (txn_id : String) (r : TransactionRecord) (s : TxnManager L)
      → TwoPhase txn_id r s
          (commit_two_phase leasing net txn_id (record r { state = voting }) (claim txn_id r s)).0
          (commit_two_phase leasing net txn_id (record r { state = voting }) (claim txn_id r s)).1
  two_phase_lem txn_id r s = elim (Bool-cases (all is_yes (votes_of txn_id r s))) [
    | inl x ↦
        rw (two_phase-yes txn_id r s x)
          (all_yes x refl (rw (get-insert, eq_refl)) (rw append_assoc))
    | inr x ↦
        rw (two_phase-no txn_id r s x) (some_no x refl (rw (get-insert, eq_refl)) (rw append_assoc))
  ]

  pub commit-TwoPhase :
      (txn_id : String) (r : TransactionRecord) (p q : ParticipantRecord)
      (ps : List ParticipantRecord) (s : TxnManager L)
      → Dict.get txn_id s.store ≡ some r
      → r.state ≡ active
      → r.participants ≡ p ∷ q ∷ ps
      → TwoPhase txn_id r s (commit leasing net txn_id s).0 (commit leasing net txn_id s).1
  commit-TwoPhase txn_id r p q ps s found is_active two =
      rw (commit-active txn_id r s found is_active)
        (rw two (two_phase_lem txn_id (record r { participants = p ∷ q ∷ ps }) s))
