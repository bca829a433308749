-- ===== src/Lease/Service.antt =====
-- The gRPC handlers of `LeaseService`, over its manager
-- (djinn/crates/coordin8-lease/src/service.rs). A timestamp is passed on as it is; the stream of
-- `watch_expiry` is modelled by what one subscriber gets for each broadcast event.
use Prim.Native.String.{◌++◌}
use coordin.Common.{
  ℕ, String, Option, none, some, List, [], ◌∷◌, Result, ok, err, ◌≡◌, refl, arith, ltb, ◌==◌,
  if◌then◌else◌, length, map, ◌≤◌, ◌<◌,
}
use coordin.Common.Text.{show_u64}
use coordin.Error.{Error, lease_not_found, lease_expired, to_string}
use coordin.Status.{Status, Handler, not_found, failed_precondition, internal, invalid_argument}
use coordin.Lease.{Chrono, LeaseRecord, LeaseReclaimed, ReclaimReason}
use coordin.Lease.Manager
use coordin.Lease.Manager.{LeaseManager}

-- The proto message `Lease`.
pub record Lease : Type 0 where
  pub lease_id : String
  pub resource_id : String
  pub granted_at : ℕ
  pub expires_at : ℕ
  pub ttl_seconds : ℕ
  pub grantor_host : String
  pub grantor_port : ℕ

pub record RenewItem : Type 0 where
  pub lease_id : String
  pub ttl_seconds : ℕ

pub record RenewResult : Type 0 where
  pub lease_id : String
  pub lease : Option Lease
  pub error_message : String

pub record ExpiryEvent : Type 0 where
  pub lease_id : String
  pub resource_id : String
  pub expired_at : ℕ
  pub reason : ReclaimReason

abbrev pub renew_all_max_items : ℕ
renew_all_max_items = 1000

unfoldable pub renew_status : Error → Status
renew_status (lease_not_found id) = record {
  code = not_found;
  message = to_string (lease_not_found id);
}
renew_status (lease_expired id) = record {
  code = failed_precondition;
  message = to_string (lease_expired id);
}
renew_status e = record { code = internal; message = to_string e }

abbrev internal_status : Error → Status
internal_status e = record { code = internal; message = to_string e }

abbrev expiry_event : LeaseReclaimed → ExpiryEvent
expiry_event e = record {
  lease_id = e.lease_record.lease_id;
  resource_id = e.lease_record.resource_id;
  expired_at = e.lease_record.expires_at;
  reason = e.reason;
}

-- `.map(f).map_err(g)`
abbrev respond {ℓ} :
    {A B : Type ℓ} {S : Type ℓ} {E F : Type ℓ} → (A → B) → (E → F) → Result E A × S → Result F B × S
respond f g (ok a, s) = (ok (f a), s)
respond f g (err e, s) = (err (g e), s)

-- Each item's renewal, one after the other, on its own.
abbrev pub renew_each : Chrono → ℕ → List RenewItem → LeaseManager → LeaseManager
renew_each chrono now [] s = s
renew_each chrono now (item ∷ rest) s =
    renew_each chrono now rest (Manager.renew chrono now item.lease_id item.ttl_seconds s).1

module _ (chrono : Chrono) (grantor_host : String) (grantor_port : ℕ) where
  unfoldable pub record_to_proto : LeaseRecord → Lease
  record_to_proto r = record {
    lease_id = r.lease_id;
    resource_id = r.resource_id;
    granted_at = r.granted_at;
    expires_at = r.expires_at;
    ttl_seconds = r.ttl_seconds;
    grantor_host = grantor_host;
    grantor_port = grantor_port;
  }

  unfoldable pub grant : ℕ → String → String → ℕ → Handler LeaseManager Lease
  grant now uuid resource_id ttl_seconds s =
      respond record_to_proto internal_status
        (Manager.grant chrono now uuid resource_id ttl_seconds s)

  unfoldable pub renew : ℕ → String → ℕ → Handler LeaseManager Lease
  renew now lease_id ttl_seconds s =
      respond record_to_proto renew_status (Manager.renew chrono now lease_id ttl_seconds s)

  abbrev renew_result : String → Result Error LeaseRecord → RenewResult
  renew_result id (ok r) = record {
    lease_id = id;
    lease = some (record_to_proto r);
    error_message = "";
  }
  renew_result id (err e) = record { lease_id = id; lease = none; error_message = to_string e }

  unfoldable pub renew_items : ℕ → List RenewItem → LeaseManager → List RenewResult × LeaseManager
  renew_items now [] s = ([], s)
  renew_items now (item ∷ rest) s =
      let (r, t) = Manager.renew chrono now item.lease_id item.ttl_seconds s in
      let (rs, u) = renew_items now rest t in (renew_result item.lease_id r ∷ rs, u)

  abbrev too_many : ℕ → String
  too_many n =
      "RenewAll accepts at most 1000 items per call, got "
      ++ show_u64 n
      ++ " — split into multiple calls"

  unfoldable pub renew_all : ℕ → List RenewItem → Handler LeaseManager (List RenewResult)
  renew_all now leases s =
      if ltb renew_all_max_items (length leases)
      then (err (record { code = invalid_argument; message = too_many (length leases) }), s)
      else (ok (renew_items now leases s).0, (renew_items now leases s).1)

  unfoldable pub cancel : String → Handler LeaseManager Unit
  cancel lease_id s = respond (λ u. u) internal_status (Manager.cancel lease_id s)

  -- One item of the stream of `watch_expiry`, before the receiver lags.
  unfoldable pub watch_item : String → LeaseReclaimed → Option ExpiryEvent
  watch_item filter_resource event =
      if filter_resource == ""
      then some (expiry_event event)
      else if filter_resource == event.lease_record.resource_id
      then some (expiry_event event)
      else none

  ids-renew_items :
      (now : ℕ) (items : List RenewItem) (s : LeaseManager)
      → map (λ r. r.lease_id) (renew_items now items s).0 ≡ map (λ i. i.lease_id) items
  unfolding renew_items
  ids-renew_items now [] s = refl
  ids-renew_items now (item ∷ rest) s = ground (
    arith,
    ids-renew_items now rest (Manager.renew chrono now item.lease_id item.ttl_seconds s).1,
  )

  state-renew_items :
      (now : ℕ) (items : List RenewItem) (s : LeaseManager)
      → (renew_items now items s).1 ≡ renew_each chrono now items s
  unfolding renew_items
  state-renew_items now [] s = refl
  state-renew_items now (item ∷ rest) s =
      state-renew_items now rest (Manager.renew chrono now item.lease_id item.ttl_seconds s).1

  -- A batch of at most a thousand items is answered with one result for each item, in the order of
  -- the request, and leaves the manager as the renewals of its items one by one would, whichever of
  -- them fail.
  renew_all_answers :
      (now : ℕ) (items : List RenewItem) (s : LeaseManager)
      → length items ≤ renew_all_max_items
      → (rs : List RenewResult) × (renew_all now items s ≡ (ok rs, renew_each chrono now items s))
        × (map (λ r. r.lease_id) rs ≡ map (λ i. i.lease_id) items)
  unfolding renew_all
  renew_all_answers now items s fits = (
    (renew_items now items s).0,
    ground (arith, state-renew_items now items s),
    ids-renew_items now items s,
  )

  -- A batch of more than a thousand items is refused as an invalid argument, and renews nothing.
  renew_all_refuses :
      (now : ℕ) (items : List RenewItem) (s : LeaseManager)
      → renew_all_max_items < length items
      → (status : Status) × (renew_all now items s ≡ (err status, s))
        × (status.code ≡ invalid_argument)
  unfolding renew_all
  renew_all_refuses now items s big =
      (record { code = invalid_argument; message = too_many (length items) }, ground arith, refl)
