-- ===== src/Txn.antt =====
-- Transactions and their participants (djinn/crates/coordin8-core/src/txn.rs).
pub mod Store
pub mod Participants
pub mod Manager
pub mod Allowlist
pub mod Wildcards
pub mod Endpoints
pub mod Dialled
pub mod Permitted
pub mod Calls
pub mod TwoPhase
pub mod Single
pub mod Frame
pub mod Outcome
pub mod Service
pub mod History
mod Tests
mod AllowlistTests
use coordin.Common.{ℕ, String, Bool, true, false, List}

pub data TransactionState : Type 0 where
  active voting prepared committed aborted : TransactionState

-- The derived equality.
abbrev pub same_state : TransactionState → TransactionState → Bool
same_state active active = true
same_state voting voting = true
same_state prepared prepared = true
same_state committed committed = true
same_state aborted aborted = true
same_state _ _ = false

-- The derived `Debug`.
unfoldable pub show_state : TransactionState → String
show_state active = "Active"
show_state voting = "Voting"
show_state prepared = "Prepared"
show_state committed = "Committed"
show_state aborted = "Aborted"

pub data PrepareVote : Type 0 where
  prepared not_changed aborted : PrepareVote

pub record ParticipantRecord : Type 0 where
  pub endpoint : String
  pub crash_count : ℕ

pub record TransactionRecord : Type 0 where
  pub txn_id : String
  pub lease_id : String
  pub state : TransactionState
  pub participants : List ParticipantRecord
  pub begun_at : ℕ
