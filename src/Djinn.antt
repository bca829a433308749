-- ===== src/Djinn.antt =====
-- The daemon (djinn/crates/coordin8-djinn/src): what ties the services to their leases.
pub mod Sweep
pub mod Strikes
pub mod Cascade
pub mod Reclaiming
pub mod Orphans
pub mod Follow
pub mod RegistryNode
pub mod EventNode
pub mod SpaceNode
pub mod TxnNode
mod Tests
