-- ===== src/Space.antt =====
-- Tuples and watches of the Space (djinn/crates/coordin8-core/src/space.rs).
pub mod Store
pub mod Manager
pub mod Waiting
pub mod Service
pub mod Blocking
pub mod Participant
pub mod Taking
pub mod Isolation
pub mod Ending
mod Tests
use coordin.Common.{ℕ, String, Bool, true, false, List, Option}
use coordin.Common.Dict.{Dict}

pub record TupleRecord : Type 0 where
  pub tuple_id : String
  pub attrs : Dict String
  pub payload : List ℕ
  pub lease_id : String
  pub written_by : String
  pub written_at : ℕ
  pub input_tuple_id : Option String

pub data SpaceEventKind : Type 0 where
  appearance expiration : SpaceEventKind

pub record SpaceWatchRecord : Type 0 where
  pub watch_id : String
  pub template : Dict String
  pub on : SpaceEventKind
  pub lease_id : String
  pub handback : List ℕ
