-- ===== src/Djinn/Follow.antt =====
-- The registry follows the reaper through its cascade (`spawn_cascade` and the registry's handler in
-- djinn/crates/coordin8-djinn/src/services.rs, with the reaper's round of
-- djinn/crates/coordin8-lease/src/reaper.rs).
use coordin.Common.{
  ℕ, String, Option, none, some, List, [], ◌∷◌, ◌++◌, map, any, filter, ok, ◌≡◌, refl, sym, ◌∙◌,
  arith, ◌==◌, if◌then◌else◌, eq_iff,
}
use mathlib.Core.List.{append_cancel_left}
use coordin.Common.Dict
use coordin.Common.Keyed.{any-values}
use coordin.Lease.{LeaseRecord, LeaseReclaimed, expired, is_expired}
use coordin.Lease.Manager.{reap}
use coordin.Lease.Reaping.{IsStore, reap_exact}
use coordin.Registry.{RegistryEntry}
use coordin.Registry.Coherence.{IsCoherent}
use coordin.Djinn.Cascade.{cascade}
use coordin.Djinn.RegistryNode.{Node, reclaim, on_reclaimed}
use coordin.Djinn.Reclaiming.{among, unless_among, reclaim_all, reclaim_all-entries}

cascade-reclaim :
    (events : List LeaseReclaimed) (s : Node)
    → cascade on_reclaimed (map ok events) s
      ≡ reclaim_all (map (λ e. e.lease_record.lease_id) events) s
unfolding cascade on_reclaimed
cascade-reclaim [] s = refl
cascade-reclaim (e ∷ es) s = cascade-reclaim es (reclaim e.lease_record.lease_id s)

eq_sym : (a b : String) → (a == b) ≡ (b == a)
eq_sym a b = ground (arith, eq_iff a b, eq_iff b a)

among-reports :
    (l : String) (rs : List LeaseRecord) (report : LeaseRecord → LeaseReclaimed)
    → ((r : LeaseRecord) → (report r).lease_record ≡ r)
    → among l (map (λ e. e.lease_record.lease_id) (map report rs)) ≡ any (λ r. r.lease_id == l) rs
unfolding any
among-reports l [] report same = refl
among-reports l (r ∷ rs) report same =
    rw (same r, eq_sym l r.lease_id, among-reports l rs report same) refl

-- An entry unless its lease is expired in the store.
abbrev pub unless_expired : ℕ → Node → Option RegistryEntry → Option RegistryEntry
unless_expired now s none = none
unless_expired now s (some e) = elim (Dict.get e.lease_id s.leases.store) [
  | none ↦ some e
  | some r ↦ if is_expired now r then none else some e
]

abbrev reaped : ℕ → Node → Node
reaped now s = record s { leases = reap now s.leases }

abbrev reports : ℕ → Node → List LeaseReclaimed
reports now s =
    map (λ r. record { lease_record = r; reason = expired })
      (filter (is_expired now) (Dict.values s.leases.store))

unless_among-reports :
    (now : ℕ) (s : Node) (o : Option RegistryEntry)
    → IsStore s.leases.store
    → unless_among (map (λ e. e.lease_record.lease_id) (reports now s)) o ≡ unless_expired now s o
unless_among-reports now s none w = refl
unless_among-reports now s (some e) w =
    rw
      (among-reports e.lease_id (filter (is_expired now) (Dict.values s.leases.store))
        (λ r. record { lease_record = r; reason = expired }) (λ r. refl))
      (rw (any-values (λ r. r.lease_id) (is_expired now) e.lease_id s.leases.store w)
        (ground arith))

-- Where the registry is coherent and its lease store well formed, a round of the reaper and the
-- handling of the events that it broadcast leave exactly the entries whose leases had not expired.
pub cascade-reap :
    (now : ℕ) (s : Node) (events : List LeaseReclaimed)
    → IsCoherent s.index
    → IsStore s.leases.store
    → (reap now s.leases).expiry_tx ≡ s.leases.expiry_tx ++ events
    → (id : String)
    → Dict.get id
        (cascade on_reclaimed
          (map ok events)
          (record s { leases = reap now s.leases })).index.entries
      ≡ unless_expired now s (Dict.get id s.index.entries)
cascade-reap now s events c w told id =
    let all_told : events ≡ reports now s =
      append_cancel_left s.leases.expiry_tx events (reports now s)
        (sym told ∙ (reap_exact now s.leases w).1) in
    rw (cascade-reclaim events (reaped now s)) (
      rw (reclaim_all-entries (map (λ e. e.lease_record.lease_id) events) (reaped now s) c id)
        (rw all_told (unless_among-reports now s (Dict.get id s.index.entries) w)))
