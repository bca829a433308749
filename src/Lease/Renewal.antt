-- ===== src/Lease/Renewal.antt =====
-- Renewal and cancellation through the manager (djinn/crates/coordin8-lease/src/manager.rs).
use coordin.Common.{
  Result, Option-cases, Bool-cases, some, true, false, ℕ, String, true, false, none, some, [], ◌∷◌,
  ◌++◌, ok, err, ◌≡◌, refl, arith, if◌then◌else◌, ◌==◌, Result-cases, inl, inr,
}
use coordin.Common.Dict
use coordin.Common.Dict.{get-remove, get-insert}
use coordin.Common.Keyed.{insert-IsKeyed}
use coordin.Error.{Error, lease_not_found, lease_expired}
use coordin.Lease.{Chrono, LeaseRecord, cancelled, is_expired, negotiate}
use coordin.Lease.Store
use coordin.Lease.Store.{InMemoryLeaseStore, expiry_for, create}
use coordin.Lease.Manager.{LeaseManager, grant, renew, cancel}
use coordin.Lease.Reaping.{IsStore}

-- Granting, renewing and cancelling keep the store well-formed, whether they succeed or fail.
pub grant-IsStore :
    (chrono : Chrono) (now : ℕ) (uuid resource : String) (ttl : ℕ) (s : LeaseManager)
    → IsStore s.store
    → IsStore (grant chrono now uuid resource ttl s).1.store
unfolding grant create
grant-IsStore chrono now uuid resource ttl s w =
    elim (Result-cases (expiry_for chrono now (negotiate s.config ttl))) [
      | inl (x, e) ↦ rw (e, create) (insert-IsKeyed _ uuid _ s.store refl w)
      | inr (x, e) ↦ rw (e, create) w
    ]

-- The outcomes of a renewal of `k` in `s`: the id is unknown, the lease has expired, the new expiry
-- cannot be represented, or the entry gets the negotiated TTL and its expiry and keeps the rest.
pub data Renewal (chrono : Chrono) (now : ℕ) (k : String) (ttl : ℕ) (s : LeaseManager)
    (result : Result Error LeaseRecord) (t : LeaseManager) : Type 0 where
  unknown :
      Dict.get k s.store ≡ none
      → result ≡ err (lease_not_found k)
      → t ≡ s
      → Renewal chrono now k ttl s result t
  late :
      (r : LeaseRecord)
      → Dict.get k s.store ≡ some r
      → is_expired now r ≡ true
      → result ≡ err (lease_expired k)
      → t ≡ s
      → Renewal chrono now k ttl s result t
  out_of_range :
      (e : Error)
      → expiry_for chrono now (negotiate s.config ttl) ≡ err e
      → result ≡ err e
      → t ≡ s
      → Renewal chrono now k ttl s result t
  renewed :
      (r : LeaseRecord) (x : ℕ)
      → Dict.get k s.store ≡ some r
      → is_expired now r ≡ false
      → expiry_for chrono now (negotiate s.config ttl) ≡ ok x
      → result ≡ ok (record r { expires_at = x; ttl_seconds = negotiate s.config ttl })
      → t ≡ record s {
        store =
            Dict.insert k
              (record r { expires_at = x; ttl_seconds = negotiate s.config ttl })
              s.store;
      }
      → Renewal chrono now k ttl s result t

-- `renew` has one of four outcomes: `LeaseNotFound` for an unknown id, `LeaseExpired` for a lease that
-- is expired at `now`, or the error of an expiry that cannot be represented, each of which changes
-- nothing; or success, where the entry keeps its id, resource and grant time and gets the negotiated
-- TTL and its expiry, and no other entry is written.
pub renew-Renewal :
    (chrono : Chrono) (now : ℕ) (k : String) (ttl : ℕ) (s : LeaseManager)
    → Renewal chrono now k ttl s (renew chrono now k ttl s).0 (renew chrono now k ttl s).1
unfolding renew Store.get Store.renew
renew-Renewal chrono now k ttl s = elim (Option-cases (Dict.get k s.store)) [
  | inl e ↦ unknown e (ground arith) (ground arith)
  | inr (r, e) ↦ elim (Bool-cases (is_expired now r)) [
    | inl x ↦ late r e x (ground arith) (ground arith)
    | inr x ↦ elim (Result-cases (expiry_for chrono now (negotiate s.config ttl))) [
      | inl (t, y) ↦ renewed r t e x y (ground arith) (ground arith)
      | inr (z, y) ↦ out_of_range z y (ground arith) (ground arith)
    ]
  ]
]

-- After `cancel` the id is gone, every other entry is as it was, and the broadcast got one
-- `Cancelled` event if the lease was there and none if it was not.
pub cancel_lem :
    (k : String) (s : LeaseManager)
    → ((j : String)
        → Dict.get j (cancel k s).1.store ≡ (if k == j then none else Dict.get j s.store))
      × ((cancel k s).1.expiry_tx ≡ elim (Dict.get k s.store) [
        | none ↦ s.expiry_tx
        | some r ↦ s.expiry_tx ++ record { lease_record = r; reason = cancelled } ∷ []
      ])
unfolding cancel Store.get Store.cancel
cancel_lem k s = ((λ j. ground (arith, get-remove k j s.store)), ground arith)
