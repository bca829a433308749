-- ===== src/Lease/Leasing.antt =====
-- The lease grantor that Space, EventMgr and TransactionMgr are given: the trait `Leasing`
-- (djinn/crates/coordin8-core/src/lease.rs), and the manager as its implementation.
use coordin.Common.{ℕ, String}
use coordin.Error.{Method}
use coordin.Lease.{Chrono, LeaseRecord}
use coordin.Lease.Manager
use coordin.Lease.Manager.{LeaseManager}

-- `L` is the grantor's state. What a call reads of the clock and draws at random belongs to it.
pub record Leasing (L : Type 0) : Type 0 where
  pub grant : String → ℕ → Method L LeaseRecord
  pub renew : String → ℕ → Method L LeaseRecord
  pub cancel : String → Method L Unit

-- The manager at one moment, with the id that it draws next.
abbrev pub lease_manager : Chrono → ℕ → String → Leasing LeaseManager
lease_manager chrono now uuid = record {
  grant = Manager.grant chrono now uuid;
  renew = Manager.renew chrono now;
  cancel = Manager.cancel;
}
