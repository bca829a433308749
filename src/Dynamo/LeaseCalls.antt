-- ===== src/Dynamo/LeaseCalls.antt =====
-- Calls on the leases in DynamoDB (djinn/providers/dynamo/src/lease_store.rs) beside the same calls on
-- the leases in memory (djinn/providers/local/src/lease_store.rs).
use coordin.Common.{
  ℕ, ◌≤◌, String, Bool, true, Option, none, some, List, [], ◌∷◌, Result, ok, ◌≡◌, ◌↔◌,
  if◌then◌else◌, ◌==◌,
}
use coordin.Common.Dict
use coordin.Common.Dict.{Dict, get-insert, get-remove}
use coordin.Error.{Error}
use coordin.Lease.{Chrono, LeaseRecord}
use coordin.Lease.Store
use coordin.Lease.Store.{InMemoryLeaseStore}
use coordin.Dynamo.{str, Item, Client, Formats}
use coordin.Dynamo.Items.{u64_max}
use coordin.Dynamo.Tables.{Table}
use coordin.Dynamo.Matching
use coordin.Dynamo.LeaseStore
use coordin.Dynamo.LeaseStore.{DynamoLeaseStore, update_expression}
use coordin.Dynamo.LeaseRows.{IsRow}

-- What is documented of the expressions that the store writes.
pub record LeaseExpressions {W : Type 0} {client : Client W} {table_name : String}
    (t : Table client table_name "lease_id") : Type 0 where
  pub exists :
      (names : Dict String) (values row : Item)
      → t.holds "attribute_exists(lease_id)" names values row ≡ Dict.contains_key "lease_id" row
  pub equals :
      (text : String) (values row : Item)
      → Dict.get ":listed" values ≡ some (str text)
      → (t.holds "expires_at = :listed" [] values row ≡ true)
        ↔ (Dict.get "expires_at" row ≡ some (str text))
  pub set :
      (values row : Item) (k : String)
      → Dict.get k (
          t.updated
            "SET expires_at = :ea, ttl_seconds = :ts, #ttl_field = :ttl, expires_epoch = :ee"
            (("#ttl_field", "ttl") ∷ [])
            values
            row)
        ≡ (if "expires_at" == k
            then Dict.get ":ea" values
            else if "ttl_seconds" == k
            then Dict.get ":ts" values
            else if "ttl" == k
            then Dict.get ":ttl" values
            else if "expires_epoch" == k
            then Dict.get ":ee" values
            else Dict.get k row)
  pub set_and_remove :
      (values row : Item) (k : String)
      → Dict.get k (
          t.updated "SET expires_at = :ea, ttl_seconds = :ts REMOVE #ttl_field, expires_epoch"
            (("#ttl_field", "ttl") ∷ [])
            values
            row)
        ≡ (if "expires_at" == k
            then Dict.get ":ea" values
            else if "ttl_seconds" == k
            then Dict.get ":ts" values
            else if "ttl" == k
            then none
            else if "expires_epoch" == k
            then none
            else Dict.get k row)

-- The row holds the lease of the key.
abbrev pub Holds : Formats → String → LeaseRecord → Item → Type 0
Holds formats k r item = (r.lease_id ≡ k) × IsRow formats r item

-- The table holds what the store in memory holds.
abbrev pub Same :
    {W : Type 0} → Formats → (W → String → Option Item) → W → InMemoryLeaseStore → Type 0
Same formats rows w leases = Matching.Same (Holds formats) rows w leases

pub data Call : Type 0 where
  create : ℕ → String → String → ℕ → Call
  get : String → Call
  renew : ℕ → String → ℕ → Call
  cancel : String → Call
  remove_if_unchanged : LeaseRecord → Call

pub data Answer : Type 0 where
  lease : Result Error LeaseRecord → Answer
  found : Result Error (Option LeaseRecord) → Answer
  done : Result Error Unit → Answer
  removed : Result Error Bool → Answer

abbrev pub local : Chrono → Call → InMemoryLeaseStore → Answer × InMemoryLeaseStore
local chrono (create now uuid resource ttl) s =
    let (r, t) = Store.create chrono now uuid resource ttl s in (lease r, t)
local chrono (get id) s = let (r, t) = Store.get id s in (found r, t)
local chrono (renew now id ttl) s = let (r, t) = Store.renew chrono now id ttl s in (lease r, t)
local chrono (cancel id) s = let (r, t) = Store.cancel id s in (done r, t)
local chrono (remove_if_unchanged old) s =
    let (r, t) = Store.remove_if_unchanged old s in (removed r, t)

module _ {W : Type 0} (client : Client W) (chrono : Chrono) (formats : Formats)
    (store : DynamoLeaseStore) where
  abbrev pub remote : Call → W → Answer × W
  remote (create now uuid resource ttl) w =
      let (r, t) = LeaseStore.create client chrono formats store now uuid resource ttl w in
      (lease r, t)
  remote (get id) w = let (r, t) = LeaseStore.get client chrono formats store id w in (found r, t)
  remote (renew now id ttl) w =
      let (r, t) = LeaseStore.renew client chrono formats store now id ttl w in (lease r, t)
  remote (cancel id) w =
      let (r, t) = LeaseStore.cancel client chrono formats store id w in (done r, t)
  remote (remove_if_unchanged old) w =
      let (r, t) = LeaseStore.remove_if_unchanged client chrono formats store old w in
      (removed r, t)

-- The answers to a list of calls, one after the other, with the state at the end.
abbrev pub answers : {S : Type 0} → (Call → S → Answer × S) → List Call → S → List Answer × S
answers step [] s = ([], s)
answers step (c ∷ cs) s =
    let (a, t) = step c s in let (rest, end) = answers step cs t in (a ∷ rest, end)

-- A TTL is a `u64`, and where a lease is renewed its expiry can be represented.
abbrev pub InRange : Chrono → Call → Type 0
InRange chrono (create now uuid resource ttl) = ttl ≤ u64_max
InRange chrono (renew now id ttl) =
    (ttl ≤ u64_max) × ((x : ℕ) × (Store.expiry_for chrono now ttl ≡ ok x))
InRange chrono _ = Unit
