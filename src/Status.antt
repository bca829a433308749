-- ===== src/Status.antt =====
-- The gRPC status that a handler fails with: tonic's code and the message. Handlers are methods that
-- fail with a status.
use coordin.Common.{String, Exec}

pub data Code : Type 0 where
  not_found failed_precondition internal invalid_argument unavailable permission_denied : Code
  aborted unknown data_loss unauthenticated : Code

pub record Status : Type 0 where
  pub code : Code
  pub message : String

abbrev pub Handler : Type 0 → Type 0 → Type 0
Handler S A = Exec Status S A
