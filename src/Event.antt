-- ===== src/Event.antt =====
-- Events and subscriptions (djinn/crates/coordin8-core/src/event.rs).
pub mod Store
pub mod Manager
pub mod Mailbox
pub mod Fifo
pub mod Delivery
pub mod Service
pub mod Streams
pub mod Sparing
mod Tests
use coordin.Common.{ℕ, String, Bool, true, false, List}
use coordin.Common.Dict.{Dict}

pub record EventRecord : Type 0 where
  pub event_id : String
  pub source : String
  pub event_type : String
  pub seq_num : ℕ
  pub attrs : Dict String
  pub payload : List ℕ
  pub emitted_at : ℕ

pub data DeliveryMode : Type 0 where
  durable best_effort : DeliveryMode

abbrev pub is_durable : DeliveryMode → Bool
is_durable durable = true
is_durable best_effort = false

pub record SubscriptionRecord : Type 0 where
  pub registration_id : String
  pub source : String
  pub template : Dict String
  pub delivery : DeliveryMode
  pub lease_id : String
  pub handback : List ℕ
  pub initial_seq_num : ℕ
