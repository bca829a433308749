-- ===== src/Dynamo/LeaseRows.antt =====
-- How a row of the lease table holds a lease
-- (djinn/providers/dynamo/src/lease_store.rs), and that it is read back.
use coordin.Common.{ℕ, ◌≤◌, Option, none, some, ok, ◌≡◌, refl, eqb, Bool-cases, inl, inr}
use coordin.Common.Dict
use coordin.Common.Int.{show_i64, ℤ}
use coordin.Common.Text.{show_u64}
use coordin.Lease.{LeaseRecord, lease_forever}
use coordin.Dynamo.{AttributeValue, str, num, Item, Formats}
use coordin.Dynamo.Items.{u64_max, parse_u64-show_u64}
use coordin.Dynamo.LeaseStore.{record_from_item, item_of, expires_epoch, ttl_epoch}

abbrev pub number_of : Option ℤ → Option AttributeValue
number_of none = none
number_of (some epoch) = some (num (show_i64 epoch))

-- The item holds the lease.
pub record IsRow (formats : Formats) (r : LeaseRecord) (item : Item) : Type 0 where
  pub lease_id : Dict.get "lease_id" item ≡ some (str r.lease_id)
  pub resource_id : Dict.get "resource_id" item ≡ some (str r.resource_id)
  pub granted_at : Dict.get "granted_at" item ≡ some (str (formats.to_rfc3339 r.granted_at))
  pub expires_at : Dict.get "expires_at" item ≡ some (str (formats.to_rfc3339 r.expires_at))
  pub ttl_seconds : Dict.get "ttl_seconds" item ≡ some (num (show_u64 r.ttl_seconds))
  pub epoch :
      Dict.get "expires_epoch" item ≡ number_of (expires_epoch formats r.expires_at r.ttl_seconds)
  pub in_range : r.ttl_seconds ≤ u64_max

module _ (formats : Formats)
    (reads : (t : ℕ) → formats.parse_date (formats.to_rfc3339 t) ≡ ok t) where
  -- A lease is read back from the row that holds it, where dates are read back from their texts.
  pub record_from_item-IsRow :
      (r : LeaseRecord) (item : Item) → IsRow formats r item → record_from_item formats item ≡ ok r
  unfolding record_from_item
  record_from_item-IsRow r item h =
      rw
        (
          h.lease_id,
          h.resource_id,
          h.granted_at,
          reads,
          h.expires_at,
          reads,
          h.ttl_seconds,
          parse_u64-show_u64 r.ttl_seconds h.in_range,
        )
        refl

-- What `create` puts holds the lease.
pub item_of-IsRow :
    (formats : Formats) (r : LeaseRecord)
    → r.ttl_seconds ≤ u64_max
    → IsRow formats r (item_of formats r)
unfolding item_of expires_epoch ttl_epoch Dict.get
item_of-IsRow formats r h = elim (Bool-cases (eqb r.ttl_seconds lease_forever)) [
  | inl e ↦ record {
    lease_id = refl;
    resource_id = refl;
    granted_at = refl;
    expires_at = refl;
    ttl_seconds = refl;
    epoch = rw e refl;
    in_range = h;
  }
  | inr e ↦ record {
    lease_id = refl;
    resource_id = refl;
    granted_at = refl;
    expires_at = refl;
    ttl_seconds = refl;
    epoch = rw e refl;
    in_range = h;
  }
]
