-- ===== src/Lease/Reaping.antt =====
-- What the reaper and `drain_expired` take out of the store, races with renewals included
-- (djinn/crates/coordin8-lease/src/manager.rs and reaper.rs).
use coordin.Common.{
  ℕ, String, Bool, true, Option, none, some, List, [], ◌∷◌, ◌++◌, map, ok, ◌≡◌, refl, ◌≢◌, arith,
  if◌then◌else◌, ◌==◌, eq_iff, All, any, filter, append_assoc, append-nil,
}
use coordin.Common.Dict
use coordin.Common.Dict.{get-remove}
use coordin.Common.Keyed.{
  IsKeyed, Distinct, remove-IsKeyed, any-values, filter-values-Distinct, filter-values-Found,
}
use coordin.Lease.{LeaseRecord, LeaseReclaimed, expired, is_expired}
use coordin.Lease.Store.{InMemoryLeaseStore, list_expired, remove_if_unchanged}
use coordin.Lease.Manager.{
  LeaseManager, remove_unchanged, drain_expired, announce_expired, reap, send,
}

abbrev pub IsStore : InMemoryLeaseStore → Type 0
IsStore = IsKeyed (λ r. r.lease_id)

-- The records stand in the store as they are listed, no two with one id.
abbrev AreCurrent : InMemoryLeaseStore → List LeaseRecord → Type 0
AreCurrent m rs = All (λ r. Dict.get r.lease_id m ≡ some r) rs

abbrev listed_id : String → List LeaseRecord → Bool
listed_id k rs = any (λ r. r.lease_id == k) rs

AreCurrent-remove :
    (r : LeaseRecord) (m : InMemoryLeaseStore) (rs : List LeaseRecord)
    → All (λ w. w.lease_id ≢ r.lease_id) rs
    → AreCurrent m rs
    → AreCurrent (Dict.remove r.lease_id m) rs
AreCurrent-remove r m [] d h = tt
AreCurrent-remove r m (w ∷ rs) d h = (
  ground (arith, get-remove r.lease_id w.lease_id m, eq_iff r.lease_id w.lease_id, d.0, h.0),
  AreCurrent-remove r m rs d.1 h.1,
)

abbrev without_ids : List LeaseRecord → String → Option LeaseRecord → Option LeaseRecord
without_ids rs k o = if listed_id k rs then none else o

-- One current record is removed, and its removal is reported.
remove_if_unchanged-current :
    (r : LeaseRecord) (m : InMemoryLeaseStore)
    → Dict.get r.lease_id m ≡ some r
    → remove_if_unchanged r m ≡ (ok true, Dict.remove r.lease_id m)
unfolding remove_if_unchanged
remove_if_unchanged-current r m h = ground (arith, h)

abbrev pub emptied : LeaseManager → List LeaseRecord → LeaseManager
emptied s [] = s
emptied s (r ∷ rs) = emptied (record s { store = Dict.remove r.lease_id s.store }) rs

remove_unchanged-current :
    (rs : List LeaseRecord) (s : LeaseManager)
    → AreCurrent s.store rs
    → Distinct (λ r. r.lease_id) rs
    → remove_unchanged rs s ≡ (ok rs, emptied s rs)
unfolding remove_unchanged
remove_unchanged-current [] s h d = refl
remove_unchanged-current (r ∷ rs) s h d = rw (remove_if_unchanged-current r s.store h.0) (
    rw
      (remove_unchanged-current rs (record s { store = Dict.remove r.lease_id s.store })
        (AreCurrent-remove r s.store rs d.0 h.1) d.1)
      refl)

get-emptied :
    (rs : List LeaseRecord) (s : LeaseManager) (k : String)
    → Dict.get k (emptied s rs).store ≡ without_ids rs k (Dict.get k s.store)
unfolding any
get-emptied [] s k = refl
get-emptied (r ∷ rs) s k = ground (
  arith,
  get-emptied rs (record s { store = Dict.remove r.lease_id s.store }) k,
  get-remove r.lease_id k s.store,
)

emptied-expiry_tx :
    (rs : List LeaseRecord) (s : LeaseManager) → (emptied s rs).expiry_tx ≡ s.expiry_tx
emptied-expiry_tx [] s = refl
emptied-expiry_tx (r ∷ rs) s =
    emptied-expiry_tx rs (record s { store = Dict.remove r.lease_id s.store })

abbrev pub expired_leases : ℕ → LeaseManager → List LeaseRecord
expired_leases now s = filter (is_expired now) (Dict.values s.store)

drain_expired_lem :
    (now : ℕ) (s : LeaseManager)
    → IsStore s.store
    → drain_expired now s ≡ (ok (expired_leases now s), emptied s (expired_leases now s))
unfolding drain_expired list_expired
drain_expired_lem now s w =
    remove_unchanged-current _ s (filter-values-Found (λ r. r.lease_id) (is_expired now) s.store w)
      (filter-values-Distinct (λ r. r.lease_id) (is_expired now) s.store w)

abbrev reports : List LeaseRecord → List LeaseReclaimed
reports = map (λ r. record { lease_record = r; reason = expired })

announce_expired_lem :
    (rs : List LeaseRecord) (s : LeaseManager)
    → announce_expired rs s ≡ record s { expiry_tx = s.expiry_tx ++ reports rs }
announce_expired_lem [] s = rw append-nil
announce_expired_lem (r ∷ rs) s =
    rw (announce_expired_lem rs (send (record { lease_record = r; reason = expired }) s))
      (rw append_assoc)

get-reaped :
    (now : ℕ) (s : LeaseManager)
    → IsStore s.store
    → (k : String)
    → Dict.get k (emptied s (expired_leases now s)).store ≡ elim (Dict.get k s.store) [
      | none ↦ none
      | some r ↦ if is_expired now r then none else some r
    ]
get-reaped now s w k =
    rw (get-emptied (expired_leases now s) s k)
      (rw (any-values (λ r. r.lease_id) (is_expired now) k s.store w) (ground arith))

emptied-IsStore :
    (rs : List LeaseRecord) (s : LeaseManager) → IsStore s.store → IsStore (emptied s rs).store
emptied-IsStore [] s w = w
emptied-IsStore (r ∷ rs) s w =
    emptied-IsStore rs (record s { store = Dict.remove r.lease_id s.store })
      (remove-IsKeyed (λ (q : LeaseRecord). q.lease_id) r.lease_id s.store w)

pub reap-IsStore : (now : ℕ) (s : LeaseManager) → IsStore s.store → IsStore (reap now s).store
unfolding reap
reap-IsStore now s w = rw (drain_expired_lem now s w) (
    rw (announce_expired_lem (expired_leases now s) (emptied s (expired_leases now s)))
      (emptied-IsStore (expired_leases now s) s w))

-- One round of the reaper on a well-formed store takes out exactly the leases that are expired at
-- `now`, leaves every other entry as it was, and broadcasts each lease that it took out once, with
-- the reason `Expired`.
pub reap_exact :
    (now : ℕ) (s : LeaseManager)
    → IsStore s.store
    → ((k : String)
        → Dict.get k (reap now s).store ≡ elim (Dict.get k s.store) [
          | none ↦ none
          | some r ↦ if is_expired now r then none else some r
        ])
      × ((reap now s).expiry_tx
          ≡ s.expiry_tx
            ++ map
                (λ r. record { lease_record = r; reason = expired })
                (filter (is_expired now) (Dict.values s.store)))
unfolding reap
reap_exact now s w = rw (drain_expired_lem now s w) (
    rw (announce_expired_lem (expired_leases now s) (emptied s (expired_leases now s)))
      ((λ k. get-reaped now s w k), rw (emptied-expiry_tx (expired_leases now s) s)))

abbrev after_one : LeaseRecord → LeaseManager → LeaseManager
after_one r s = record s { store = (remove_if_unchanged r s.store).1 }

remove_unchanged-cons :
    (r : LeaseRecord) (rest : List LeaseRecord) (s : LeaseManager)
    → (remove_unchanged (r ∷ rest) s).1 ≡ (remove_unchanged rest (after_one r s)).1
unfolding remove_unchanged remove_if_unchanged
remove_unchanged-cons r rest s = ground arith

-- A sweep that works from an old list removes no lease that was renewed or granted since: an entry
-- whose `expires_at` is not the one listed under its id is still there afterwards, unchanged.
pub remove_unchanged-keeps :
    (listed : List LeaseRecord) (s : LeaseManager) (k : String) (cur : LeaseRecord)
    → Dict.get k s.store ≡ some cur
    → All (λ r. r.lease_id ≡ k → r.expires_at ≢ cur.expires_at) listed
    → Dict.get k (remove_unchanged listed s).1.store ≡ some cur
unfolding remove_if_unchanged
remove_unchanged-keeps [] s k cur h a = unfold remove_unchanged in h
remove_unchanged-keeps (r ∷ rest) s k cur h a = rw (remove_unchanged-cons r rest s) (
    remove_unchanged-keeps rest (after_one r s) k cur
      (ground (arith, get-remove r.lease_id k s.store, eq_iff r.lease_id k)) a.1)
