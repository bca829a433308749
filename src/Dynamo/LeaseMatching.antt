-- ===== src/Dynamo/LeaseMatching.antt =====
-- Rows of the lease table beside entries in memory (djinn/providers/dynamo/src/lease_store.rs).
use coordin.Common.{ℕ, String, Option, none, some, ok, ◌≡◌, refl}
use coordin.Lease.{Chrono, LeaseRecord}
use coordin.Lease.Store
use coordin.Lease.Store.{InMemoryLeaseStore}
use coordin.Dynamo.{Item, Formats}
use coordin.Dynamo.LeaseStore
use coordin.Dynamo.LeaseStore.{
  DynamoLeaseStore, update_expression, read_found, ttl_values, ttl_epoch, expires_epoch, item_of,
}
use coordin.Dynamo.LeaseRows.{record_from_item-IsRow}
use coordin.Dynamo.Matching.{Matches}
use coordin.Dynamo.Matching.{Matches}
use coordin.Dynamo.LeaseCalls.{Holds}

pub expiry_for-eq :
    (chrono : Chrono) (from ttl : ℕ)
    → LeaseStore.expiry_for chrono from ttl ≡ Store.expiry_for chrono from ttl
unfolding LeaseStore.expiry_for Store.expiry_for
expiry_for-eq chrono from ttl = refl

module _ (formats : Formats)
    (reads : (t : ℕ) → formats.parse_date (formats.to_rfc3339 t) ≡ ok t) where
  pub read_found-Matches :
      (k : String) (row : Option Item) (entry : Option LeaseRecord)
      → Matches (Holds formats) k row entry
      → read_found formats row ≡ ok entry
  read_found-Matches k none none h = refl
  read_found-Matches k none (some r) h = elim h [ ]
  read_found-Matches k (some item) none h = elim h [ ]
  read_found-Matches k (some item) (some r) h =
      rw (record_from_item-IsRow formats reads r item h.1) refl
