-- ===== src/Dynamo/LeaseExpiry.antt =====
-- What the paged scan for expired leases finds (djinn/providers/dynamo/src/lease_store.rs).
use coordin.Common.{String, true, some, List, [], ◌∷◌, ◌≡◌, In}
use coordin.Common.Dict
use coordin.Common.Int.{ℤ, ◌≤ℤ◌, show_i64}
use coordin.Error.{Error}
use coordin.Lease.{LeaseRecord}
use coordin.Dynamo.{num, Item, Client, Formats}
use coordin.Dynamo.Tables.{Table}
use coordin.Dynamo.LeaseStore
use coordin.Dynamo.LeaseStore.{expired_filter, record_from_item}
use coordin.Dynamo.LeaseRows.{IsRow}

-- Each item holds the lease at its place.
abbrev Rows : Formats → List Item → List LeaseRecord → Type 0
Rows formats [] [] = Unit
Rows formats (item ∷ items) (r ∷ rs) = IsRow formats r item × Rows formats items rs
Rows formats _ _ = ⊥

-- What is documented of the scan: it meets the rows that pass its filter, and the filter passes a row
-- whose `expires_epoch` is a number of at most `:now`.
pub record Filtered {W : Type 0} {client : Client W} {table_name : String}
    (t : Table client table_name "lease_id") (w : W) (epoch : ℤ) (met : List Item) : Type 0 where
  pub sound : (item : Item) → In item met → (k : String) × (t.rows w k ≡ some item)
  pub complete :
      (k : String) (item : Item)
      → t.rows w k ≡ some item
      → t.holds expired_filter
          (("#ttl_field", "ttl") ∷ [])
          ((":now", num (show_i64 epoch)) ∷ [])
          item
        ≡ true
      → In item met
  pub passes :
      (item : Item) (n : ℤ)
      → Dict.get "expires_epoch" item ≡ some (num (show_i64 n))
      → n ≤ℤ epoch
      → t.holds expired_filter
          (("#ttl_field", "ttl") ∷ [])
          ((":now", num (show_i64 epoch)) ∷ [])
          item
        ≡ true
