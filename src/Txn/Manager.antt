-- ===== src/Txn/Manager.antt =====
-- The two-phase-commit coordinator (djinn/crates/coordin8-txn/src/manager.rs). `L` is the state of its
-- lease grantor; `calls` are the calls dialled to participants, oldest first. Calls that the code
-- makes in parallel are made in the order of the list. The endpoint check of `enlist` and what the
-- clock and the random source give are arguments.
use Prim.Native.String.{◌++◌ as concat}
use coordin.Common.{
  ℕ, String, Bool, true, false, Option, none, some, List, [], ◌∷◌, ◌++◌, map, Result, ok, err, pure,
  raise, lift, ok_or, ◌>>=◌, ◌>>◌, if◌then◌else◌,
}
use coordin.Error.{
  Error, Method, transaction_not_found, transaction_terminal, transaction_aborted,
  transaction_commit_in_progress, transaction_outcome_unknown, internal, to_string,
}
use coordin.Lease.{LeaseRecord}
use coordin.Lease.Leasing.{Leasing}
use coordin.Txn.{
  TransactionState, active, voting, prepared, committed, aborted, show_state, PrepareVote,
  ParticipantRecord, TransactionRecord,
}
use coordin.Txn.Store
use coordin.Txn.Store.{InMemoryTxnStore}
use coordin.Txn.Participants.{
  Call, prepare, commit as commit_call, abort as abort_call, prepare_and_commit, Network,
  call_prepare, call_prepare_and_commit,
}

pub record TxnManager (L : Type 0) : Type 0 where
  pub store : InMemoryTxnStore
  pub leases : L
  pub calls : List Call

-- The votes of phase one, in the order of the participants.
abbrev pub Votes : Type 0
Votes = List (String × Result Error PrepareVote)

pub data Tally : Type 0 where
  go_ahead : List String → Tally
  give_up : String → Tally

-- The loop over the votes: it stops at the first that is neither `Prepared` nor `NotChanged`.
unfoldable pub tally : List String → Votes → Tally
tally prepared_eps [] = go_ahead prepared_eps
tally prepared_eps ((ep, ok PrepareVote.prepared) ∷ rest) = tally (prepared_eps ++ ep ∷ []) rest
tally prepared_eps ((ep, ok PrepareVote.not_changed) ∷ rest) = tally prepared_eps rest
tally prepared_eps ((ep, ok PrepareVote.aborted) ∷ rest) =
    give_up (concat "participant " (concat ep " voted ABORTED"))
tally prepared_eps ((ep, err e) ∷ rest) =
    give_up (concat "participant " (concat ep (concat " prepare failed: " (to_string e))))

abbrev pub endpoints : List ParticipantRecord → List String
endpoints = map (λ p. p.endpoint)

abbrev unexpected : String → TransactionState → Error
unexpected txn_id from = internal (
    concat "transaction "
      (concat txn_id (concat ": expected state " (concat (show_state from) " during commit"))))

module _ {L : Type 0} where
  abbrev pub on_store : {A : Type 0} → Method InMemoryTxnStore A → Method (TxnManager L) A
  on_store m s = ((m s.store).0, record s { store = (m s.store).1 })

  abbrev pub on_leases : {A : Type 0} → Method L A → Method (TxnManager L) A
  on_leases m s = ((m s.leases).0, record s { leases = (m s.leases).1 })

  abbrev pub dial : Call → TxnManager L → TxnManager L
  dial c s = record s { calls = s.calls ++ c ∷ [] }

  unfoldable pub fetch : String → Method (TxnManager L) TransactionRecord
  fetch txn_id = do found ← on_store (Store.get txn_id); ok_or (transaction_not_found txn_id) found

  unfoldable pub get_state : String → Method (TxnManager L) TransactionState
  unfolding fetch
  get_state txn_id = do r ← fetch txn_id; pure r.state

  unfoldable pub transition :
      String → TransactionState → TransactionState → Method (TxnManager L) Unit
  transition txn_id from to = do
    moved ← on_store (Store.update_state_if txn_id from to)
    if moved then pure tt else raise (unexpected txn_id from)

  -- `enlist`: the endpoint is checked before anything is stored.
  unfoldable pub enlist :
      (String → Result Error Unit) → String → String → ℕ → Method (TxnManager L) Unit
  enlist check txn_id endpoint crash_count = do
    lift (check endpoint)
    on_store
        (Store.add_participant txn_id (record { endpoint = endpoint; crash_count = crash_count }))

  -- Phase two, on either outcome. Failures of these calls are only logged.
  unfoldable pub commit_calls : String → List String → TxnManager L → TxnManager L
  commit_calls txn_id [] s = s
  commit_calls txn_id (ep ∷ eps) s = commit_calls txn_id eps (dial (commit_call ep txn_id) s)

  unfoldable pub do_abort_participants :
      String → List ParticipantRecord → TxnManager L → TxnManager L
  do_abort_participants txn_id [] s = s
  do_abort_participants txn_id (p ∷ ps) s =
      do_abort_participants txn_id ps (dial (abort_call p.endpoint txn_id) s)

module _ {L : Type 0} (net : Network) where
  -- Phase one.
  unfoldable pub prepare_calls :
      String → List ParticipantRecord → TxnManager L → Votes × TxnManager L
  prepare_calls txn_id [] s = ([], s)
  prepare_calls txn_id (p ∷ ps) s =
      let later = prepare_calls txn_id ps (dial (prepare p.endpoint txn_id) s) in
      ((p.endpoint, call_prepare net p.endpoint txn_id s.calls) ∷ later.0, later.1)

module _ {L : Type 0} (leasing : Leasing L) (net : Network) where
  unfoldable pub begin : ℕ → String → ℕ → Method (TxnManager L) (String × LeaseRecord)
  begin now txn_id ttl_secs = do
    lease ← on_leases (leasing.grant (concat "txn:" txn_id) ttl_secs)
    on_store (
        Store.create (record {
          txn_id = txn_id;
          lease_id = lease.lease_id;
          state = active;
          participants = [];
          begun_at = now;
        }))
    pure (txn_id, lease)

  -- `self.lease_manager.cancel(&txn.lease_id).await.ok()`
  abbrev pub release : TransactionRecord → Method (TxnManager L) Unit
  release r s = (ok tt, record s { leases = (leasing.cancel r.lease_id s.leases).1 })

  -- No participants.
  unfoldable pub commit_none : String → TransactionRecord → Method (TxnManager L) Unit
  commit_none txn_id r = do transition txn_id voting committed; release r

  abbrev pub single_vote :
      String → TransactionRecord → Result Error PrepareVote → Method (TxnManager L) Unit
  single_vote txn_id r (ok PrepareVote.prepared) = do transition txn_id voting committed; release r
  single_vote txn_id r (ok PrepareVote.not_changed) = do
    transition txn_id voting committed
    release r
  single_vote txn_id r (ok PrepareVote.aborted) = do
    transition txn_id voting aborted
    release r
    raise (transaction_aborted txn_id)
  single_vote txn_id r (err e) = raise (transaction_outcome_unknown txn_id)

  -- One participant: `PrepareAndCommit`.
  unfoldable pub commit_single :
      String → ParticipantRecord → TransactionRecord → Method (TxnManager L) Unit
  commit_single txn_id p r s =
      single_vote txn_id r (call_prepare_and_commit net p.endpoint txn_id s.calls)
        (dial (prepare_and_commit p.endpoint txn_id) s)

  abbrev pub decide : String → TransactionRecord → Tally → Method (TxnManager L) Unit
  decide txn_id r (give_up reason) = do
    transition txn_id voting aborted
    (λ s. (ok tt, do_abort_participants txn_id r.participants s))
    release r
    raise (transaction_aborted txn_id)
  decide txn_id r (go_ahead prepared_eps) = do
    transition txn_id voting prepared
    (λ s. (ok tt, commit_calls txn_id prepared_eps s))
    transition txn_id prepared committed
    release r

  -- Two or more participants.
  unfoldable pub commit_two_phase : String → TransactionRecord → Method (TxnManager L) Unit
  commit_two_phase txn_id r s =
      let (votes, t) = prepare_calls net txn_id r.participants s in
      decide txn_id r (tally [] votes) t

  abbrev pub commit_claimed :
      String → TransactionRecord → List ParticipantRecord → Method (TxnManager L) Unit
  commit_claimed txn_id r [] = commit_none txn_id r
  commit_claimed txn_id r (p ∷ []) = commit_single txn_id p r
  commit_claimed txn_id r (p ∷ q ∷ ps) = commit_two_phase txn_id r

  abbrev pub commit_refused : String → TransactionState → Method (TxnManager L) Unit
  commit_refused txn_id committed = pure tt
  commit_refused txn_id aborted = raise (transaction_aborted txn_id)
  commit_refused txn_id _ = raise (transaction_commit_in_progress txn_id)

  unfoldable pub commit : String → Method (TxnManager L) Unit
  unfolding fetch transition commit_none commit_single commit_two_phase
  commit txn_id = do
    claimed ← on_store (Store.update_state_if txn_id active voting)
    r ← fetch txn_id
    if claimed then commit_claimed txn_id r r.participants else commit_refused txn_id r.state

  abbrev pub abort_refused : String → TransactionState → Method (TxnManager L) Unit
  abort_refused txn_id committed = raise (transaction_terminal txn_id)
  abort_refused txn_id aborted = pure tt
  abort_refused txn_id _ = raise (transaction_commit_in_progress txn_id)

  unfoldable pub abort : String → Method (TxnManager L) Unit
  unfolding fetch
  abort txn_id = do
    claimed ← on_store (Store.update_state_if txn_id active aborted)
    r ← fetch txn_id
    if claimed
        then (do (λ s. (ok tt, do_abort_participants txn_id r.participants s)); release r)
        else abort_refused txn_id r.state

  abbrev pub abort_found : String → Option TransactionRecord → TxnManager L → TxnManager L
  abort_found txn_id none s = s
  abort_found txn_id (some r) s = do_abort_participants txn_id r.participants s

  abbrev pub after_expiry : String → Result Error Bool → Method (TxnManager L) Unit
  after_expiry txn_id (ok true) = do
    found ← on_store (Store.get txn_id)
    (λ s. (ok tt, abort_found txn_id found s))
  after_expiry txn_id (ok false) = pure tt
  after_expiry txn_id (err (transaction_not_found _)) = pure tt
  after_expiry txn_id (err e) = raise e

  unfoldable pub abort_expired : String → Method (TxnManager L) Unit
  abort_expired txn_id s =
      let (claimed, m) = Store.update_state_if txn_id active aborted s.store in
      after_expiry txn_id claimed (record s { store = m })
