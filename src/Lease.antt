-- ===== src/Lease.antt =====
-- Lease records and the server's lease policy (djinn/crates/coordin8-core/src/lease.rs).
-- A `DateTime<Utc>` is its distance from the earliest one in nanoseconds, a `u64` a native number.
-- chrono's arithmetic and the current time are arguments.
pub mod Store
pub mod Manager
pub mod Policy
pub mod Reaping
pub mod Renewal
pub mod History
pub mod Service
pub mod Leasing
mod Tests
use Prim.Native.String.{◌++◌ as concat}
use coordin.Common.Chars.{parse_uint, to_ascii_lowercase}
use coordin.Common.{
  ◌==◌, ℕ, ◌*◌, ◌-◌, ◌^◌, String, Bool, true, false, Option, none, some, ltb, leb, eqb,
  if◌then◌else◌, min,
}

-- What the code calls of the chrono crate: `TimeDelta::try_seconds`, whose argument is never
-- negative here, `DateTime::checked_add_signed` and `DateTime::<Utc>::MAX_UTC`.
pub record Chrono : Type 0 where
  pub try_seconds : ℕ → Option ℕ
  pub checked_add_signed : ℕ → ℕ → Option ℕ
  pub max_utc : ℕ

abbrev pub lease_any : ℕ
lease_any = 0

-- `u64::MAX`
abbrev pub lease_forever : ℕ
lease_forever = 18446744073709551615

abbrev pub max_representable_ttl_secs : ℕ
max_representable_ttl_secs = 100 * 365 * 24 * 60 * 60

abbrev try_i64 : ℕ → Option ℕ
try_i64 n = if ltb n (2 ^ 63) then some n else none

abbrev bind {ℓ κ} : {A : Type ℓ} {B : Type κ} → Option A → (A → Option B) → Option B
bind none f = none
bind (some a) f = f a

unfoldable pub checked_expiry : Chrono → ℕ → ℕ → Option ℕ
checked_expiry chrono from ttl_secs =
    bind (try_i64 ttl_secs)
      λ secs. bind (chrono.try_seconds secs) λ delta. chrono.checked_add_signed from delta

pub record LeaseRecord : Type 0 where
  pub lease_id : String
  pub resource_id : String
  pub granted_at : ℕ
  pub expires_at : ℕ
  pub ttl_seconds : ℕ

unfoldable pub is_expired : ℕ → LeaseRecord → Bool
is_expired now r = if eqb r.ttl_seconds lease_forever then false else leb r.expires_at now

pub record LeaseConfig : Type 0 where
  pub max_ttl : Option ℕ
  pub preferred_ttl : ℕ

abbrev pub default_config : LeaseConfig
default_config = record { max_ttl = some 3600; preferred_ttl = 300 }

abbrev or_value : Option String → Option String → Option String
or_value none other = other
or_value (some v) other = some v

-- A variable of the namespace, and else the global one.
abbrev variable :
    (String → Option String) → (String → String) → Option String → String → Option String
variable env to_uppercase none suffix = env suffix
variable env to_uppercase (some ns) suffix =
    or_value (env (concat (to_uppercase ns) (concat "_" suffix))) (env suffix)

abbrev or_default : ℕ → Option ℕ → ℕ
or_default d none = d
or_default d (some n) = n

abbrev max_of : Option String → Option ℕ
max_of none = some 3600
max_of (some v) =
    if to_ascii_lowercase v == "forever"
    then none
    else some (or_default 3600 (parse_uint lease_forever v))

abbrev preferred_of : Option String → ℕ
preferred_of none = 300
preferred_of (some v) = or_default 300 (parse_uint lease_forever v)

-- `env` is the environment, and `to_uppercase` the standard library's.
unfoldable pub from_env_for :
    (String → Option String) → (String → String) → Option String → LeaseConfig
from_env_for env to_uppercase namespace = record {
  max_ttl = max_of (variable env to_uppercase namespace "MAX_LEASE_TTL");
  preferred_ttl = preferred_of (variable env to_uppercase namespace "PREFERRED_LEASE_TTL");
}

unfoldable pub from_env : (String → Option String) → (String → String) → LeaseConfig
from_env env to_uppercase = from_env_for env to_uppercase none

unfoldable pub negotiate : LeaseConfig → ℕ → ℕ
negotiate c requested =
    if eqb requested lease_any
    then c.preferred_ttl
    else if eqb requested lease_forever
    then elim c.max_ttl [ none ↦ lease_forever | some max ↦ max ]
    else elim c.max_ttl [
      | none ↦ if ltb max_representable_ttl_secs requested then lease_forever else requested
      | some max ↦ min requested max
    ]

pub data ReclaimReason : Type 0 where
  expired cancelled : ReclaimReason

pub record LeaseReclaimed : Type 0 where
  pub lease_record : LeaseRecord
  pub reason : ReclaimReason
