-- ===== src/Lease/Store.antt =====
-- The in-memory lease store (djinn/providers/local/src/lease_store.rs). Each method is atomic: it
-- holds its entry of the map, or reads a snapshot of it. `now` is `Utc::now()` and `uuid` the text of
-- `Uuid::new_v4()`.
use Prim.Native.String.{◌++◌}
use coordin.Common.{
  ℕ, String, Bool, true, false, Option, none, some, List, Result, ok, err, gets, if◌then◌else◌, eqb,
  ◌==◌, filter, find,
}
use coordin.Common.Text.{show_u64}
use coordin.Common.Dict
use coordin.Common.Dict.{Dict}
use coordin.Error.{Error, Method, lease_not_found, storage}
use coordin.Lease.{Chrono, LeaseRecord, lease_forever, checked_expiry, is_expired}

abbrev pub InMemoryLeaseStore : Type 0
InMemoryLeaseStore = Dict LeaseRecord

unfoldable pub expiry_for : Chrono → ℕ → ℕ → Result Error ℕ
expiry_for chrono from ttl_secs =
    if eqb ttl_secs lease_forever
    then ok chrono.max_utc
    else elim (checked_expiry chrono from ttl_secs) [
      | none ↦ err (storage ("lease ttl out of range: " ++ show_u64 ttl_secs ++ "s"))
      | some t ↦ ok t
    ]

abbrev new_lease : ℕ → String → String → ℕ → ℕ → LeaseRecord
new_lease now uuid resource_id ttl_secs expires_at = record {
  lease_id = uuid;
  resource_id = resource_id;
  granted_at = now;
  expires_at = expires_at;
  ttl_seconds = ttl_secs;
}

unfoldable pub create : Chrono → ℕ → String → String → ℕ → Method InMemoryLeaseStore LeaseRecord
create chrono now uuid resource_id ttl_secs leases = elim (expiry_for chrono now ttl_secs) [
  | err e ↦ (err e, leases)
  | ok expires_at ↦
      let r = new_lease now uuid resource_id ttl_secs expires_at in
      (ok r, Dict.insert uuid r leases)
]

unfoldable pub renew : Chrono → ℕ → String → ℕ → Method InMemoryLeaseStore LeaseRecord
renew chrono now lease_id ttl_secs leases = elim (expiry_for chrono now ttl_secs) [
  | err e ↦ (err e, leases)
  | ok new_expiry ↦ elim (Dict.get lease_id leases) [
    | none ↦ (err (lease_not_found lease_id), leases)
    | some entry ↦
        let r = record entry { expires_at = new_expiry; ttl_seconds = ttl_secs } in
        (ok r, Dict.insert lease_id r leases)
  ]
]

unfoldable pub cancel : String → Method InMemoryLeaseStore Unit
cancel lease_id leases = (ok tt, Dict.remove lease_id leases)

unfoldable pub get : String → Method InMemoryLeaseStore (Option LeaseRecord)
get lease_id = gets (Dict.get lease_id)

unfoldable pub get_by_resource : String → Method InMemoryLeaseStore (Option LeaseRecord)
get_by_resource resource_id =
    gets λ leases. find (λ r. r.resource_id == resource_id) (Dict.values leases)

unfoldable pub list_expired : ℕ → Method InMemoryLeaseStore (List LeaseRecord)
list_expired now = gets λ leases. filter (is_expired now) (Dict.values leases)

abbrev same_version : LeaseRecord → Option LeaseRecord → Bool
same_version r none = false
same_version r (some cur) = eqb cur.expires_at r.expires_at

unfoldable pub remove_if_unchanged : LeaseRecord → Method InMemoryLeaseStore Bool
remove_if_unchanged r leases =
    if same_version r (Dict.get r.lease_id leases)
    then (ok true, Dict.remove r.lease_id leases)
    else (ok false, leases)
