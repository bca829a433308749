-- ===== src/Djinn/SpaceNode.antt =====
-- How the Space is tied to its leases (djinn/crates/coordin8-djinn/src/services.rs): its cascade,
-- and what its orphan sweep lists and reclaims. `N` is the state of the transaction manager.
use text.Mathlib.Text.{starts_with}
use coordin.Common.{ℕ, Option, List, ◌++◌, map, Result, pure, ◌>>=◌, ◌==◌, if◌then◌else◌}
use coordin.Error.{Error, Method}
use coordin.Lease.{LeaseReclaimed}
use coordin.Lease.Manager as LeaseManagers
use coordin.Lease.Manager.{LeaseManager}
use coordin.Lease.Leasing.{Leasing}
use coordin.Space.{TupleRecord, SpaceWatchRecord}
use coordin.Space.Store
use coordin.Space.Manager
use coordin.Space.Manager.{SpaceManager, TxnEnlister}
use coordin.Djinn.Sweep.{Held, OrphanTracker, sweep_once}

abbrev pub held_tuple : TupleRecord → Held
held_tuple t = record { kind = "tuple"; id = t.tuple_id; lease_id = t.lease_id }

abbrev pub held_watch : SpaceWatchRecord → Held
held_watch w = record { kind = "watch"; id = w.watch_id; lease_id = w.lease_id }

abbrev pub Node : Type 0 → Type 0
Node N = SpaceManager LeaseManager N

module _ {N : Type 0} where
  unfoldable pub list : Method (Node N) (List Held)
  list = do
    tuples ← Manager.on_store Store.list_all
    watches ← Manager.on_store Store.list_watches
    pure (map held_tuple tuples ++ map held_watch watches)

module _ {N : Type 0} (leasing : Leasing LeaseManager) (enlister : Option (TxnEnlister N)) where
  unfoldable pub on_reclaimed : LeaseReclaimed → Node N → Node N
  on_reclaimed event s =
      let r = event.lease_record in
      if starts_with r.resource_id "space:"
      then Manager.on_tuple_expired leasing enlister r.lease_id s
      else if starts_with r.resource_id "space-watch:"
      then Manager.on_watch_expired leasing enlister r.lease_id s
      else s

  unfoldable pub reclaim : Held → Node N → Node N
  reclaim held s =
      if held.kind == "watch"
      then Manager.on_watch_expired leasing enlister held.lease_id s
      else Manager.on_tuple_expired leasing enlister held.lease_id s

  unfoldable pub sweep : OrphanTracker → Node N → Result Error ℕ × OrphanTracker × Node N
  sweep = sweep_once (λ lease_id. Manager.on_leases (LeaseManagers.get lease_id)) list reclaim
