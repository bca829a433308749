-- ===== src/Txn/Tests.antt =====
-- Runs of the coordinator, and its theorems at concrete inputs.
use coordin.Common.{
  ℕ, String, some, List, [], ◌∷◌, Result, ok, err, ◌≡◌, refl, arith, if◌then◌else◌, ◌==◌, eq_iff,
}
use coordin.Common.Dict
use coordin.Lease.Leasing.{Leasing}
use coordin.Error.{Error}
use coordin.Txn.{
  TransactionState, active, voting, prepared, committed, aborted, ParticipantRecord,
  TransactionRecord,
}
use coordin.Txn.Participants.{
  Call, prepare, commit as commit_call, abort as abort_call, prepare_and_commit, Network, Failure,
  connect_failed,
}
use coordin.Txn.Store.{InMemoryTxnStore}
use coordin.Txn.Store
use coordin.Txn.Manager.{TxnManager, begin, enlist, commit, abort, abort_expired}
use coordin.Txn.History.{
  Call as TxnCall, begins, enlists, aborts as aborts_txn, expires, commits as commits_txn, run,
  run_keeps_outcome,
}
use coordin.Txn.Outcome.{Recorded, commit-ok}
use coordin.Txn.TwoPhase.{TwoPhase}

-- A grantor whose state is the list of cancelled leases.
abbrev grantor : Leasing (List String)
grantor = record {
  grant = λ resource ttl s. (
    ok (record {
      lease_id = "l1";
      resource_id = resource;
      granted_at = 0;
      expires_at = ttl;
      ttl_seconds = ttl;
    }),
    s,
  );
  renew = λ lease_id ttl s. (
    ok (record {
      lease_id = lease_id;
      resource_id = "";
      granted_at = 0;
      expires_at = ttl;
      ttl_seconds = ttl;
    }),
    s,
  );
  cancel = λ lease_id s. (ok tt, lease_id ∷ s);
}

-- Participant `a` has changes, `b` has none, `c` refuses, and `d` cannot be reached.
abbrev vote : String → ℕ
vote endpoint = if endpoint == "a" then 0 else if endpoint == "b" then 1 else 2

abbrev reply : Call → Result Failure ℕ
reply (prepare endpoint t) =
    if endpoint == "d" then err (connect_failed "refused") else ok (vote endpoint)
reply (prepare_and_commit endpoint t) =
    if endpoint == "d" then err (connect_failed "refused") else ok (vote endpoint)
reply _ = ok 0

abbrev net : Network
net = record { answer = λ calls c. reply c }

abbrev at : String → ParticipantRecord
at endpoint = record { endpoint = endpoint; crash_count = 0 }

abbrev txn : TransactionState → List ParticipantRecord → TransactionRecord
txn state ps = record {
  txn_id = "t1";
  lease_id = "l1";
  state = state;
  participants = ps;
  begun_at = 5;
}

abbrev manager : TransactionState → List ParticipantRecord → TxnManager (List String)
manager state ps = record { store = ("t1", txn state ps) ∷ []; leases = []; calls = [] }

abbrev pair : List ParticipantRecord
pair = at "a" ∷ at "b" ∷ []

-- Only the participant with changes is told to commit.
commit_run :
    (commit grantor net "t1" (manager active pair)).1.calls
    ≡ prepare "a" "t1" ∷ prepare "b" "t1" ∷ commit_call "a" "t1" ∷ []
unfolding commit Store.update_state_if Dict.get Store.get Dict.insert coordin.Txn.Manager.tally
    coordin.Txn.Manager.prepare_calls coordin.Txn.Manager.commit_calls
    coordin.Txn.Participants.call_prepare coordin.Txn.Participants.vote_from_i32 Dict.remove
commit_run = refl

-- Every endpoint is allowed.
abbrev allow : String → Result Error Unit
allow endpoint = ok tt

abbrev history : List TxnCall
history =
    begins 7 "t2" 30 ∷ enlists "t1" "b" 0 ∷ aborts_txn "t1" ∷ expires "t1" ∷ commits_txn "t1" ∷ []

run_keeps_outcome_example :
    Dict.get "t1" (run grantor net allow history (manager committed pair)).store
    ≡ some (txn committed pair)
unfolding Dict.get
run_keeps_outcome_example =
    run_keeps_outcome grantor net allow history "t1" (txn committed pair) (manager committed pair)
      (ground (arith, eq_iff "t2" "t1"), (tt, (tt, (tt, (tt, tt))))) refl (λ e. cc)

pair_commits : (commit grantor net "t1" (manager active pair)).0 ≡ ok tt
unfolding commit Store.update_state_if Dict.get Store.get Dict.insert coordin.Txn.Manager.tally
    coordin.Txn.Manager.prepare_calls coordin.Txn.Manager.commit_calls
    coordin.Txn.Participants.call_prepare coordin.Txn.Participants.vote_from_i32 Dict.remove
pair_commits = refl

commit-ok_example :
    Recorded grantor net "t1" committed (commit grantor net "t1" (manager active pair)).1
unfolding Dict.get
commit-ok_example =
    commit-ok grantor net "t1" (txn active pair) (manager active pair) refl pair_commits
