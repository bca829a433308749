-- ===== src/Lease/Policy.antt =====
-- What the policy of djinn/crates/coordin8-core/src/lease.rs grants, and when a lease expires.
use coordin.Common.{
  if◌then◌else◌, leb, eqb, false, ℕ, ◌+◌, ◌*◌, ◌≤◌, ◌≡◌, ◌≢◌, ◌↔◌, inl, inr, none, some, arith,
  String, ok, Result-cases, eq_refl,
}
use coordin.Common.Dict
use coordin.Common.Dict.{get-insert}
use coordin.Lease.{
  Chrono, LeaseRecord, LeaseConfig, lease_any, lease_forever, max_representable_ttl_secs,
  checked_expiry, is_expired, negotiate,
}
use coordin.Lease.Store.{expiry_for, create}
use coordin.Lease.Manager.{LeaseManager, grant}

-- Under a cap, every TTL that the policy grants is within the cap exactly when the preferred TTL is.
pub negotiate_within_cap :
    (c : LeaseConfig) (m : ℕ)
    → c.max_ttl ≡ some m
    → ((requested : ℕ) → negotiate c requested ≤ m) ↔ (c.preferred_ttl ≤ m)
unfolding negotiate
negotiate_within_cap c m h = (λ all. ground (arith, all 0), λ p requested. ground arith)

-- Without a cap, a request other than `LEASE_ANY` is granted as it is if it is at most a hundred
-- years, and as `LEASE_FOREVER` if it is longer.
negotiate_uncapped :
    (c : LeaseConfig) (requested : ℕ)
    → c.max_ttl ≡ none
    → requested ≢ lease_any
    → negotiate c requested
      ≡ (if leb requested max_representable_ttl_secs then requested else lease_forever)
unfolding negotiate
negotiate_uncapped c requested h n = ground arith

-- chrono's documented arithmetic: whole seconds become nanoseconds, sums are exact, and no date is
-- later than the last one.
pub record IsExact (chrono : Chrono) : Type 0 where
  pub seconds : (n d : ℕ) → chrono.try_seconds n ≡ some d → d ≡ n * 1_000_000_000
  pub sum : (a d t : ℕ) → chrono.checked_add_signed a d ≡ some t → t ≡ a + d

checked_expiry-exact :
    (chrono : Chrono) (from ttl t : ℕ)
    → IsExact chrono
    → checked_expiry chrono from ttl ≡ some t
    → t ≡ from + ttl * 1_000_000_000
unfolding checked_expiry
checked_expiry-exact chrono from ttl t x h = grind (arith, x.seconds, x.sum)

-- What a successful `grant` returns and stores.
grant-eq-ok :
    (chrono : Chrono) (now : ℕ) (uuid resource : String) (requested : ℕ) (s t : LeaseManager)
    (r : LeaseRecord)
    → grant chrono now uuid resource requested s ≡ (ok r, t)
    → (expiry_for chrono now (negotiate s.config requested) ≡ ok r.expires_at)
      × (r.ttl_seconds ≡ negotiate s.config requested)
      × (r.lease_id ≡ uuid)
      × (t.store ≡ Dict.insert uuid r s.store)
unfolding grant create
grant-eq-ok chrono now uuid resource requested s t r h =
    elim (Result-cases (expiry_for chrono now (negotiate s.config requested))) [
      | inl (x, e) ↦ ground (arith, e)
      | inr (x, e) ↦ ground (arith, e)
    ]

expiry_for-exact :
    (chrono : Chrono) (now ttl t : ℕ)
    → IsExact chrono
    → expiry_for chrono now ttl ≡ ok t
    → ttl ≢ lease_forever
    → t ≡ now + ttl * 1_000_000_000
unfolding expiry_for
expiry_for-exact chrono now ttl t x h n = checked_expiry-exact chrono now ttl t x (ground arith)

-- A lease that `grant` returns is stored under its id. If the negotiated TTL is not `LEASE_FOREVER`,
-- it counts as expired exactly from that many seconds after it was granted; otherwise never.
grant_expiry :
    (chrono : Chrono) (now later : ℕ) (uuid resource : String) (requested : ℕ) (s t : LeaseManager)
    (r : LeaseRecord)
    → IsExact chrono
    → grant chrono now uuid resource requested s ≡ (ok r, t)
    → (Dict.get r.lease_id t.store ≡ some r)
      × (is_expired later r ≡ (
          if eqb (negotiate s.config requested) lease_forever
          then false
          else leb (now + negotiate s.config requested * 1_000_000_000) later))
unfolding is_expired
grant_expiry chrono now later uuid resource requested s t r x h =
    let g = grant-eq-ok chrono now uuid resource requested s t r h in
    (
      rw (g.3, g.2, get-insert, eq_refl),
      ground (
        arith,
        g.1,
        expiry_for-exact chrono now (negotiate s.config requested) r.expires_at x g.0,
      ),
    )
