-- ===== src/Txn/Single.antt =====
-- Commits with at most one participant, and calls on a transaction that is no longer active
-- (djinn/crates/coordin8-txn/src/manager.rs).
use coordin.Common.{
  String, false, some, [], ◌∷◌, ◌++◌, Result, ok, err, ◌≡◌, ◌≢◌, ◌↔◌, refl, arith, eq_refl,
  Option-cases, inl, inr,
}
use coordin.Common.Dict
use coordin.Common.Dict.{get-insert}
use coordin.Error.{Error, transaction_aborted, transaction_outcome_unknown}
use coordin.Lease.Leasing.{Leasing}
use coordin.Txn.{
  TransactionState, active, voting, prepared, committed, aborted, ParticipantRecord,
  TransactionRecord, PrepareVote, same_state,
}
use coordin.Txn.Store
use coordin.Txn.Store.{InMemoryTxnStore}
use coordin.Txn.Participants.{Network, prepare_and_commit, call_prepare_and_commit}
use coordin.Txn.Manager.{
  TxnManager, commit, abort, abort_expired, fetch, commit_single, commit_none, single_vote,
}
use coordin.Txn.Calls.{aborts, do_abort_participants_lem}
use coordin.Txn.TwoPhase.{put, dialled, get-put, transition_lem, update_state_if_lem, commit-active}

-- The compare-and-set from any other state changes nothing.
pub update_state_if_ne :
    (txn_id : String) (from to : TransactionState) (r : TransactionRecord) (m : InMemoryTxnStore)
    → Dict.get txn_id m ≡ some r
    → same_state r.state from ≡ false
    → Store.update_state_if txn_id from to m ≡ (ok false, m)
unfolding Store.update_state_if
update_state_if_ne txn_id from to r m h e = ground arith

pub not_active : (a : TransactionState) → a ≢ active → same_state a active ≡ false
not_active active n = absurd (n refl)
not_active voting n = refl
not_active prepared n = refl
not_active committed n = refl
not_active aborted n = refl

module _ {L : Type 0} (leasing : Leasing L) (net : Network) where
  -- The outcome of a commit of `r` whose only participant gave the answer `vote`.
  pub data OnePhase (txn_id : String) (r : TransactionRecord) (vote : Result Error PrepareVote)
      (result : Result Error Unit) (t : TxnManager L) : Type 0 where
    done :
        (v : PrepareVote)
        → vote ≡ ok v
        → v ≢ PrepareVote.aborted
        → result ≡ ok tt
        → Dict.get txn_id t.store ≡ some (record r { state = committed })
        → OnePhase txn_id r vote result t
    refused :
        vote ≡ ok PrepareVote.aborted
        → result ≡ err (transaction_aborted txn_id)
        → Dict.get txn_id t.store ≡ some (record r { state = aborted })
        → OnePhase txn_id r vote result t
    unknown :
        (e : Error)
        → vote ≡ err e
        → result ≡ err (transaction_outcome_unknown txn_id)
        → Dict.get txn_id t.store ≡ some (record r { state = voting })
        → OnePhase txn_id r vote result t

  single-OnePhase :
      (txn_id : String) (r : TransactionRecord) (s : TxnManager L) (vote : Result Error PrepareVote)
      → Dict.get txn_id s.store ≡ some (record r { state = voting })
      → OnePhase txn_id r vote
          (single_vote leasing net txn_id (record r { state = voting }) vote s).0
          (single_vote leasing net txn_id (record r { state = voting }) vote s).1
  single-OnePhase txn_id r s (ok PrepareVote.prepared) h =
      rw (transition_lem txn_id voting committed (record r { state = voting }) s h refl)
        (done PrepareVote.prepared refl (λ e. cc) refl (rw (get-insert, eq_refl)))
  single-OnePhase txn_id r s (ok PrepareVote.not_changed) h =
      rw (transition_lem txn_id voting committed (record r { state = voting }) s h refl)
        (done PrepareVote.not_changed refl (λ e. cc) refl (rw (get-insert, eq_refl)))
  single-OnePhase txn_id r s (ok PrepareVote.aborted) h =
      rw (transition_lem txn_id voting aborted (record r { state = voting }) s h refl)
        (refused refl refl (rw (get-insert, eq_refl)))
  single-OnePhase txn_id r s (err e) h = unknown e refl refl h

  calls-single :
      (txn_id : String) (r : TransactionRecord) (s : TxnManager L) (vote : Result Error PrepareVote)
      → Dict.get txn_id s.store ≡ some (record r { state = voting })
      → (single_vote leasing net txn_id (record r { state = voting }) vote s).1.calls ≡ s.calls
  calls-single txn_id r s (ok PrepareVote.prepared) h =
      rw (transition_lem txn_id voting committed (record r { state = voting }) s h refl)
  calls-single txn_id r s (ok PrepareVote.not_changed) h =
      rw (transition_lem txn_id voting committed (record r { state = voting }) s h refl)
  calls-single txn_id r s (ok PrepareVote.aborted) h =
      rw (transition_lem txn_id voting aborted (record r { state = voting }) s h refl)
  calls-single txn_id r s (err e) h = refl

  pub commit-OnePhase :
      (txn_id : String) (r : TransactionRecord) (p : ParticipantRecord) (s : TxnManager L)
      → Dict.get txn_id s.store ≡ some r
      → r.state ≡ active
      → r.participants ≡ p ∷ []
      → OnePhase txn_id r
          (call_prepare_and_commit net p.endpoint txn_id s.calls)
          (commit leasing net txn_id s).0
          (commit leasing net txn_id s).1
        × ((commit leasing net txn_id s).1.calls
            ≡ s.calls ++ prepare_and_commit p.endpoint txn_id ∷ [])
  unfolding commit_single
  commit-OnePhase txn_id r p s found is_active one =
      rw (commit-active leasing net txn_id r s found is_active) (
        rw one (
          single-OnePhase txn_id (record r { participants = p ∷ [] })
              (dialled (prepare_and_commit p.endpoint txn_id ∷ [])
                (put txn_id voting (record r { participants = p ∷ [] }) s))
              (call_prepare_and_commit net p.endpoint txn_id s.calls) (rw (get-insert, eq_refl)),
          calls-single txn_id (record r { participants = p ∷ [] })
              (dialled (prepare_and_commit p.endpoint txn_id ∷ [])
                (put txn_id voting (record r { participants = p ∷ [] }) s))
              (call_prepare_and_commit net p.endpoint txn_id s.calls) (rw (get-insert, eq_refl)),
        ))

  -- A commit of an active transaction without participants succeeds, records `Committed` and calls
  -- nobody.
  pub commit-none :
      (txn_id : String) (r : TransactionRecord) (s : TxnManager L)
      → Dict.get txn_id s.store ≡ some r
      → r.state ≡ active
      → r.participants ≡ []
      → ((commit leasing net txn_id s).0 ≡ ok tt)
        × (Dict.get txn_id (commit leasing net txn_id s).1.store
            ≡ some (record r { state = committed }))
        × ((commit leasing net txn_id s).1.calls ≡ s.calls)
  unfolding commit_none
  commit-none txn_id r s found is_active zero =
      rw (commit-active leasing net txn_id r s found is_active) (
        rw zero (
          rw
            (transition_lem txn_id voting committed (record r { state = voting; participants = [] })
              (put txn_id voting (record r { participants = [] }) s)
              (get-put txn_id voting (record r { participants = [] }) s) refl)
            (refl, rw (get-insert, eq_refl), refl)))

  -- A commit of a transaction that is no longer active changes nothing and calls nobody, whatever its
  -- state. It succeeds if and only if the transaction was committed.
  pub commit-decided :
      (txn_id : String) (r : TransactionRecord) (s : TxnManager L)
      → Dict.get txn_id s.store ≡ some r
      → r.state ≢ active
      → ((commit leasing net txn_id s).1 ≡ s)
        × (((commit leasing net txn_id s).0 ≡ ok tt) ↔ (r.state ≡ committed))
  unfolding commit fetch Store.get
  commit-decided txn_id r s found n =
      rw (update_state_if_ne txn_id active voting r s.store found (not_active r.state n))
        (rw found (ground arith))

  -- An abort of an active transaction succeeds, records `Aborted`, and dials `abort` to every
  -- participant.
  abort-active :
      (txn_id : String) (r : TransactionRecord) (s : TxnManager L)
      → Dict.get txn_id s.store ≡ some r
      → r.state ≡ active
      → ((abort leasing net txn_id s).0 ≡ ok tt)
        × (Dict.get txn_id (abort leasing net txn_id s).1.store
            ≡ some (record r { state = aborted }))
        × ((abort leasing net txn_id s).1.calls ≡ s.calls ++ aborts txn_id r.participants)
  unfolding abort fetch Store.get
  abort-active txn_id r s found e =
      rw (update_state_if_lem txn_id active aborted r s.store found e) (
        rw (get-insert, eq_refl)
          (rw (do_abort_participants_lem txn_id r.participants (put txn_id aborted r s))
            (refl, rw (get-insert, eq_refl), refl)))

  -- An abort of a transaction that is no longer active changes nothing and calls nobody. It succeeds
  -- if and only if the transaction was aborted.
  pub abort-decided :
      (txn_id : String) (r : TransactionRecord) (s : TxnManager L)
      → Dict.get txn_id s.store ≡ some r
      → r.state ≢ active
      → ((abort leasing net txn_id s).1 ≡ s)
        × (((abort leasing net txn_id s).0 ≡ ok tt) ↔ (r.state ≡ aborted))
  unfolding abort fetch Store.get
  abort-decided txn_id r s found n =
      rw (update_state_if_ne txn_id active aborted r s.store found (not_active r.state n))
        (rw found (ground arith))

  -- The expiry of the lease of an active transaction records `Aborted`, dials `abort` to every
  -- participant, and changes nothing else.
  pub abort_expired-active :
      (txn_id : String) (r : TransactionRecord) (s : TxnManager L)
      → Dict.get txn_id s.store ≡ some r
      → r.state ≡ active
      → abort_expired leasing net txn_id s
        ≡ (ok tt, dialled (aborts txn_id r.participants) (put txn_id aborted r s))
  unfolding abort_expired Store.get
  abort_expired-active txn_id r s found e =
      rw (update_state_if_lem txn_id active aborted r s.store found e) (
        rw (get-insert, eq_refl)
          (rw (do_abort_participants_lem txn_id r.participants (put txn_id aborted r s)) refl))

  -- The expiry of the lease of a transaction that is unknown or not active succeeds and changes nothing.
  pub abort_expired-decided :
      (txn_id : String) (s : TxnManager L)
      → ((r : TransactionRecord) → Dict.get txn_id s.store ≡ some r → r.state ≢ active)
      → abort_expired leasing net txn_id s ≡ (ok tt, s)
  unfolding abort_expired
  abort_expired-decided txn_id s n = elim (Option-cases (Dict.get txn_id s.store)) [
    | inl e ↦ unfold Store.update_state_if in rw (e, Store.update_state_if)
    | inr (r, e) ↦
        rw (update_state_if_ne txn_id active aborted r s.store e (not_active r.state (n r e)))
  ]
