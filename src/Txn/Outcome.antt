-- ===== src/Txn/Outcome.antt =====
-- What the answer of a commit promises (djinn/crates/coordin8-txn/src/manager.rs).
use coordin.Common.{String, some, List, [], ◌∷◌, Result, ok, ◌≡◌, refl, Bool-cases, inl, inr}
use coordin.Common.Dict
use coordin.Error.{Error}
use coordin.Lease.Leasing.{Leasing}
use coordin.Txn.{
  TransactionState, active, committed, ParticipantRecord, TransactionRecord, same_state,
}
use coordin.Txn.Participants.{Network, call_prepare_and_commit}
use coordin.Txn.Manager.{TxnManager, commit}
use coordin.Txn.TwoPhase.{TwoPhase, all_yes, some_no, commit-TwoPhase}
use coordin.Txn.Single.{
  OnePhase, done, refused, unknown, commit-OnePhase, commit-none, commit-decided,
}
use coordin.Txn.Frame.{same_active, differs}

module _ {L : Type 0} (leasing : Leasing L) (net : Network) where
  -- The transaction is recorded in the state.
  abbrev pub Recorded : String → TransactionState → TxnManager L → Type 0
  Recorded txn_id state t =
      (x : TransactionRecord) × (Dict.get txn_id t.store ≡ some x) × (x.state ≡ state)

  TwoPhase-ok :
      (txn_id : String) (r : TransactionRecord) (s t : TxnManager L) (result : Result Error Unit)
      → TwoPhase leasing net txn_id r s result t
      → result ≡ ok tt
      → Recorded txn_id committed t
  TwoPhase-ok txn_id r s t result (all_yes yes_all e found calls) h = (_, found, refl)
  TwoPhase-ok txn_id r s t result (some_no no_all e found calls) h = absurd (cc)

  OnePhase-ok :
      (txn_id : String) (r : TransactionRecord) (vote : Result Error _) (result : Result Error Unit)
      (t : TxnManager L)
      → OnePhase leasing net txn_id r vote result t
      → result ≡ ok tt
      → Recorded txn_id committed t
  OnePhase-ok txn_id r vote result t (done v e n q found) h = (_, found, refl)
  OnePhase-ok txn_id r vote result t (refused e q found) h = absurd (cc)
  OnePhase-ok txn_id r vote result t (unknown x e q found) h = absurd (cc)

  active-ok :
      (txn_id : String) (r : TransactionRecord) (ps : List ParticipantRecord) (s : TxnManager L)
      → Dict.get txn_id s.store ≡ some r
      → r.state ≡ active
      → r.participants ≡ ps
      → (commit leasing net txn_id s).0 ≡ ok tt
      → Recorded txn_id committed (commit leasing net txn_id s).1
  active-ok txn_id r [] s found e q h = (_, (commit-none leasing net txn_id r s found e q).1, refl)
  active-ok txn_id r (p ∷ []) s found e q h =
      OnePhase-ok txn_id r (call_prepare_and_commit net p.endpoint txn_id s.calls)
        (commit leasing net txn_id s).0 (commit leasing net txn_id s).1
        (commit-OnePhase leasing net txn_id r p s found e q).0 h
  active-ok txn_id r (p ∷ p₂ ∷ ps) s found e q h =
      TwoPhase-ok txn_id r s (commit leasing net txn_id s).1 (commit leasing net txn_id s).0
        (commit-TwoPhase leasing net txn_id r p p₂ ps s found e q) h

  -- If a commit answers success, then the transaction is recorded as `Committed` afterwards, whatever
  -- its state and its participants were.
  pub commit-ok :
      (txn_id : String) (r : TransactionRecord) (s : TxnManager L)
      → Dict.get txn_id s.store ≡ some r
      → (commit leasing net txn_id s).0 ≡ ok tt
      → Recorded txn_id committed (commit leasing net txn_id s).1
  commit-ok txn_id r s found h = elim (Bool-cases (same_state r.state active)) [
    | inl e ↦ active-ok txn_id r r.participants s found (same_active r.state e) refl h
    | inr e ↦
        let (same, when) = commit-decided leasing net txn_id r s found (differs r.state e) in
        (r, rw same found, when.0 h)
  ]
