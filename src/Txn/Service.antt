-- ===== src/Txn/Service.antt =====
-- The handlers of `TransactionService` (djinn/crates/coordin8-txn/src/service.rs).
use coordin.Common.{ℕ, String, Result, ok, err}
use coordin.Error.{
  Error, unavailable as unavailable_error, invalid_argument as invalid_argument_error,
  permission_denied as permission_denied_error, transaction_commit_in_progress,
  transaction_outcome_unknown, transaction_aborted, transaction_not_found, to_string,
}
use coordin.Status.{
  Code, Status, Handler, unavailable, invalid_argument, permission_denied, failed_precondition,
  unknown, internal, not_found, aborted as aborted_code,
}
use coordin.Lease.{LeaseRecord}
use coordin.Lease.Leasing.{Leasing}
use coordin.Lease.Service.{Lease}
use coordin.Txn.{TransactionState, active, voting, prepared, committed, aborted}
use coordin.Txn.Participants.{Network}
use coordin.Txn.Manager
use coordin.Txn.Manager.{TxnManager}

-- The code of `map_err`.
abbrev code_of : Error → Code
code_of (unavailable_error _) = unavailable
code_of (invalid_argument_error _) = invalid_argument
code_of (permission_denied_error _) = permission_denied
code_of (transaction_commit_in_progress _) = failed_precondition
code_of (transaction_outcome_unknown _) = unknown
code_of _ = internal

unfoldable pub map_err : Error → Status
map_err e = record { code = code_of e; message = to_string e }

abbrev commit_code : Error → Code
commit_code (transaction_aborted _) = aborted_code
commit_code (transaction_not_found _) = not_found
commit_code e = code_of e

-- The errors of a commit.
unfoldable pub commit_status : Error → Status
commit_status e = record { code = commit_code e; message = to_string e }

unfoldable pub state_to_proto : TransactionState → ℕ
state_to_proto active = 0
state_to_proto voting = 1
state_to_proto prepared = 2
state_to_proto committed = 3
state_to_proto aborted = 4

abbrev respond :
    {S A B : Type 0} → (A → B) → (Error → Status) → Result Error A × S → Result Status B × S
respond f status (ok a, s) = (ok (f a), s)
respond f status (err e, s) = (err (status e), s)

module _ {L : Type 0} (leasing : Leasing L) (net : Network) (grantor_host : String)
    (grantor_port : ℕ) where
  abbrev created : String × LeaseRecord → String × Lease
  created (txn_id, lease) = (
    txn_id,
    record {
      lease_id = lease.lease_id;
      resource_id = lease.resource_id;
      granted_at = lease.granted_at;
      expires_at = lease.expires_at;
      ttl_seconds = lease.ttl_seconds;
      grantor_host = grantor_host;
      grantor_port = grantor_port;
    },
  )

  unfoldable pub begin : ℕ → String → ℕ → Handler (TxnManager L) (String × Lease)
  begin now txn_id ttl_seconds s =
      respond created map_err (Manager.begin leasing net now txn_id ttl_seconds s)

  unfoldable pub enlist :
      (String → Result Error Unit) → String → String → ℕ → Handler (TxnManager L) Unit
  enlist check txn_id endpoint crash_count s =
      respond (λ u. u) map_err (Manager.enlist check txn_id endpoint crash_count s)

  unfoldable pub get_state : String → Handler (TxnManager L) ℕ
  get_state txn_id s =
      respond state_to_proto (λ e. record { code = not_found; message = to_string e })
        (Manager.get_state txn_id s)

  unfoldable pub commit : String → Handler (TxnManager L) Unit
  commit txn_id s = respond (λ u. u) commit_status (Manager.commit leasing net txn_id s)

  unfoldable pub abort : String → Handler (TxnManager L) Unit
  abort txn_id s = respond (λ u. u) map_err (Manager.abort leasing net txn_id s)
