-- ===== src/Error.antt =====
-- The error type that every crate shares (djinn/crates/coordin8-core/src/error.rs).
use Prim.Native.String.{◌++◌}
use coordin.Common.{String, Exec}

pub data Error : Type 0 where
  lease_not_found : String → Error
  lease_expired : String → Error
  resource_not_found : String → Error
  no_match : Error
  storage : String → Error
  subscription_not_found : String → Error
  subscription_expired : String → Error
  transaction_not_found : String → Error
  transaction_terminal : String → Error
  transaction_aborted : String → Error
  transaction_commit_in_progress : String → Error
  transaction_outcome_unknown : String → Error
  tuple_not_found : String → Error
  watch_not_found : String → Error
  internal : String → Error
  invalid_argument : String → Error
  permission_denied : String → Error
  unavailable : String → Error

-- A method of a store or a manager: it may fail, and keeps what it wrote.
abbrev pub Method : Type 0 → Type 0 → Type 0
Method S A = Exec Error S A

-- The `#[error("…")]` texts.
unfoldable pub to_string : Error → String
to_string (lease_not_found id) = "lease not found: " ++ id
to_string (lease_expired id) = "lease expired: " ++ id
to_string (resource_not_found id) = "resource not found: " ++ id
to_string no_match = "no match found for template"
to_string (storage text) = "storage error: " ++ text
to_string (subscription_not_found id) = "subscription not found: " ++ id
to_string (subscription_expired id) = "subscription expired: " ++ id
to_string (transaction_not_found id) = "transaction not found: " ++ id
to_string (transaction_terminal id) = "transaction in terminal state: " ++ id
to_string (transaction_aborted id) = "transaction aborted: " ++ id
to_string (transaction_commit_in_progress id) = "transaction commit already in progress: " ++ id
to_string (transaction_outcome_unknown id) = "transaction commit outcome unknown: " ++ id
to_string (tuple_not_found id) = "tuple not found: " ++ id
to_string (watch_not_found id) = "watch not found: " ++ id
to_string (internal text) = "internal error: " ++ text
to_string (invalid_argument text) = "invalid argument: " ++ text
to_string (permission_denied text) = "permission denied: " ++ text
to_string (unavailable text) = "unavailable: " ++ text
