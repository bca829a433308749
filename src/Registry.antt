-- ===== src/Registry.antt =====
-- The registry's entries (djinn/crates/coordin8-core/src/registry.rs).
pub mod Matcher
pub mod Matching
pub mod Store
pub mod Index
pub mod Coherence
pub mod Service
pub mod Ownership
mod Tests
use coordin.Common.{String, Option}
use coordin.Common.Dict.{Dict}

pub record TransportConfig : Type 0 where
  pub transport_type : String
  pub config : Dict String

pub record RegistryEntry : Type 0 where
  pub capability_id : String
  pub lease_id : String
  pub interface : String
  pub attrs : Dict String
  pub transport : Option TransportConfig
