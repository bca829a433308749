-- ===== src/Dynamo/LeaseStore.antt =====
-- Leases in DynamoDB (djinn/providers/dynamo/src/lease_store.rs). `now` is `Utc::now()` and `uuid` the
-- text of `Uuid::new_v4()`.
use Prim.Native.String.{◌++◌}
use coordin.Common.{
  ℕ, String, Bool, true, false, Option, none, some, List, [], ◌∷◌, ◌++◌ as append, Result, ok, err,
  and_then, lift, pure, ok_or, ◌>>=◌, ◌>>◌, if◌then◌else◌, eqb,
}
use coordin.Common.Int.{ℤ, pos, saturating_add, show_i64}
use coordin.Common.Text.{show_u64}
use coordin.Error.{Error, Method, storage, lease_not_found}
use coordin.Lease.{Chrono, LeaseRecord, lease_forever, checked_expiry, is_expired}
use coordin.Dynamo.{str, num, Item, SdkError, Client, Formats, Page, send, or_failed}
use coordin.Dynamo.Items.{get_s, get_date, get_u64}
use coordin.Dynamo.Paging.{pages, or_empty, first}

pub record DynamoLeaseStore : Type 0 where
  pub table_name : String
  pub scan_page_limit : Option ℕ

-- `RESOURCE_GSI`
abbrev resource_gsi : String
resource_gsi = "resource_id-index"

unfoldable pub with_table : String → DynamoLeaseStore
with_table table_name = record { table_name = table_name; scan_page_limit = none }

unfoldable pub with_scan_page_limit : ℕ → DynamoLeaseStore → DynamoLeaseStore
with_scan_page_limit limit store = record store { scan_page_limit = some limit }

abbrev pub ttl_grace_secs : ℤ
ttl_grace_secs = pos 3600

abbrev on_some : {A B : Type 0} → (A → B) → Option A → Option B
on_some f none = none
on_some f (some a) = some (f a)

unfoldable pub expiry_for : Chrono → ℕ → ℕ → Result Error ℕ
expiry_for chrono from ttl_secs =
    if eqb ttl_secs lease_forever
    then ok chrono.max_utc
    else elim (checked_expiry chrono from ttl_secs) [
      | none ↦ err (storage ("lease ttl out of range: " ++ show_u64 ttl_secs ++ "s"))
      | some t ↦ ok t
    ]

module _ (formats : Formats) where
  unfoldable pub expires_epoch : ℕ → ℕ → Option ℤ
  expires_epoch expires_at ttl_seconds =
      if eqb ttl_seconds lease_forever then none else some (formats.timestamp expires_at)

  unfoldable pub ttl_epoch : ℕ → ℕ → Option ℤ
  ttl_epoch expires_at ttl_seconds =
      on_some (λ e. saturating_add e ttl_grace_secs) (expires_epoch expires_at ttl_seconds)

  unfoldable pub record_from_item : Item → Result Error LeaseRecord
  record_from_item item = and_then (get_s "lease_id" item) λ lease_id.
      and_then (get_s "resource_id" item) λ resource_id.
        and_then (get_date formats "granted_at" item) λ granted_at.
          and_then (get_date formats "expires_at" item) λ expires_at.
            and_then (get_u64 "ttl_seconds" item) λ ttl_seconds. ok (record {
              lease_id = lease_id;
              resource_id = resource_id;
              granted_at = granted_at;
              expires_at = expires_at;
              ttl_seconds = ttl_seconds;
            })

  abbrev pub read_found : Option Item → Result Error (Option LeaseRecord)
  read_found none = ok none
  read_found (some item) = and_then (record_from_item item) λ r. ok (some r)

  -- An attribute that `create` adds where there is a value.
  abbrev pub epoch_field : String → Option ℤ → Item
  epoch_field name none = []
  epoch_field name (some epoch) = (name, num (show_i64 epoch)) ∷ []

  -- The item that `create` puts.
  unfoldable pub item_of : LeaseRecord → Item
  item_of r =
      append
        (("lease_id", str r.lease_id)
          ∷ ("resource_id", str r.resource_id)
          ∷ ("granted_at", str (formats.to_rfc3339 r.granted_at))
          ∷ ("expires_at", str (formats.to_rfc3339 r.expires_at))
          ∷ ("ttl_seconds", num (show_u64 r.ttl_seconds))
          ∷ [])
        (append (epoch_field "expires_epoch" (expires_epoch r.expires_at r.ttl_seconds))
          (epoch_field "ttl" (ttl_epoch r.expires_at r.ttl_seconds)))

  abbrev pub update_expression : Option ℤ → String
  update_expression (some epoch) =
      "SET expires_at = :ea, ttl_seconds = :ts, #ttl_field = :ttl, expires_epoch = :ee"
  update_expression none =
      "SET expires_at = :ea, ttl_seconds = :ts REMOVE #ttl_field, expires_epoch"

  abbrev pub ttl_values : ℕ → Option ℤ → Item
  ttl_values new_expires_at none = []
  ttl_values new_expires_at (some epoch) =
      (":ttl", num (show_i64 epoch))
      ∷ (":ee", num (show_i64 (formats.timestamp new_expires_at)))
      ∷ []

  -- The body of `list_expired` for an item.
  unfoldable pub push_expired : ℕ → Item → List LeaseRecord → Result Error (List LeaseRecord)
  push_expired now item records =
      and_then (record_from_item item)
        λ r. ok (if is_expired now r then append records (r ∷ []) else records)

abbrev pub renewed : String → Result SdkError (Option Item) → Result Error Unit
renewed lease_id (ok attributes) = ok tt
renewed lease_id (err e) = or_failed "update_item" (err (lease_not_found lease_id)) e

abbrev pub removed : Result SdkError (Option Item) → Result Error Bool
removed (ok attributes) = ok true
removed (err e) = or_failed "delete_item" (ok false) e

abbrev pub expired_filter : String
expired_filter =
    "(attribute_exists(expires_epoch) AND expires_epoch <= :now) OR (attribute_not_exists(expires_epoch) AND attribute_exists(#ttl_field) AND #ttl_field <= :now)"

module _ {W : Type 0} (client : Client W) (chrono : Chrono) (formats : Formats)
    (store : DynamoLeaseStore) where
  abbrev pub key_of : String → Item
  key_of lease_id = ("lease_id", str lease_id) ∷ []

  unfoldable pub create : ℕ → String → String → ℕ → Method W LeaseRecord
  create now uuid resource_id ttl_secs = do
    expires_at ← lift (expiry_for chrono now ttl_secs)
    let r : LeaseRecord = record {
      lease_id = uuid;
      resource_id = resource_id;
      granted_at = now;
      expires_at = expires_at;
      ttl_seconds = ttl_secs;
    }
    send "put_item" (
        client.put_item
          (record { table_name = store.table_name; item = item_of formats r; condition = none }))
    pure r

  unfoldable pub get : String → Method W (Option LeaseRecord)
  get lease_id = do
    item ←
        send "get_item"
          (client.get_item (record { table_name = store.table_name; key = key_of lease_id }))
    lift (read_found formats item)

  unfoldable pub renew : ℕ → String → ℕ → Method W LeaseRecord
  renew now lease_id ttl_secs = do
    found ← get lease_id
    existing ← ok_or (lease_not_found lease_id) found
    new_expires_at ← lift (expiry_for chrono now ttl_secs)
    let ttl_val = ttl_epoch formats new_expires_at ttl_secs
    (λ w.
        let answer =
          client.update_item
            (record {
              return_new = false;
              table_name = store.table_name;
              key = key_of lease_id;
              update = update_expression formats ttl_val;
              attribute_names = ("#ttl_field", "ttl") ∷ [];
              attribute_values =
                  append
                    ((":ea", str (formats.to_rfc3339 new_expires_at))
                      ∷ (":ts", num (show_u64 ttl_secs))
                      ∷ [])
                    (ttl_values formats new_expires_at ttl_val);
              condition = some "attribute_exists(lease_id)";
            })
            w in
        (renewed lease_id answer.0, answer.1))
    pure (record existing { expires_at = new_expires_at; ttl_seconds = ttl_secs })

  unfoldable pub cancel : String → Method W Unit
  cancel lease_id = do
    attributes ← send "delete_item" (
        client.delete_item (record {
          return_old = false;
          table_name = store.table_name;
          key = key_of lease_id;
          condition = none;
          attribute_values = [];
        }))
    pure tt

  unfoldable pub get_by_resource : String → Method W (Option LeaseRecord)
  get_by_resource resource_id = do
    page ← send "query" (
        client.query (record {
          table_name = store.table_name;
          index_name = some resource_gsi;
          key_condition = "resource_id = :rid";
          attribute_values = (":rid", str resource_id) ∷ [];
          limit = some 1;
          scan_index_forward = none;
          exclusive_start_key = none;
        }))
    lift (read_found formats (first (or_empty page.items)))

  abbrev pub expired_scan : ℕ → Option Item → Method W Page
  expired_scan now last_key = send "scan" (
      client.scan (record {
        table_name = store.table_name;
        filter = some expired_filter;
        attribute_names = ("#ttl_field", "ttl") ∷ [];
        attribute_values = (":now", num (show_i64 (formats.timestamp now))) ∷ [];
        limit = store.scan_page_limit;
        exclusive_start_key = last_key;
      }))

  -- With at most so many pages.
  unfoldable pub list_expired : ℕ → ℕ → Method W (Option (List LeaseRecord))
  list_expired fuel now = pages (expired_scan now) (push_expired formats now) fuel none []

  unfoldable pub remove_if_unchanged : LeaseRecord → Method W Bool
  remove_if_unchanged r w =
      let answer =
        client.delete_item
          (record {
            return_old = false;
            table_name = store.table_name;
            key = key_of r.lease_id;
            condition = some "expires_at = :listed";
            attribute_values = (":listed", str (formats.to_rfc3339 r.expires_at)) ∷ [];
          })
          w in
      (removed answer.0, answer.1)
