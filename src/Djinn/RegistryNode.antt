-- ===== src/Djinn/RegistryNode.antt =====
-- How the registry is tied to its leases (djinn/crates/coordin8-djinn/src/services.rs): its cascade,
-- and what its orphan sweep lists and reclaims.
use coordin.Common.{ℕ, String, Option, some, List, map, Result, ok, pure, ◌>>=◌}
use coordin.Error.{Error, Method}
use coordin.Lease.{LeaseRecord, LeaseReclaimed}
use coordin.Lease.Manager
use coordin.Lease.Manager.{LeaseManager}
use coordin.Registry.{RegistryEntry}
use coordin.Registry.Store
use coordin.Registry.Index
use coordin.Registry.Service
use coordin.Registry.Service.{RegistryService}
use coordin.Djinn.Sweep.{Held, OrphanTracker, sweep_once}

abbrev pub Node : Type 0
Node = RegistryService LeaseManager

abbrev pub tell : Result Error (Option RegistryEntry) → Node → Node
tell (ok (some e)) s = (Service.send 1 e s).1
tell _ s = s

-- What the cascade and the sweep do with a lease that ended.
unfoldable pub reclaim : String → Node → Node
reclaim lease_id s =
    let (gone, t) = Service.on_index (Index.unregister_by_lease lease_id) s in tell gone t

unfoldable pub on_reclaimed : LeaseReclaimed → Node → Node
on_reclaimed event = reclaim event.lease_record.lease_id

abbrev pub held_of : RegistryEntry → Held
held_of e = record { kind = "entry"; id = e.capability_id; lease_id = e.lease_id }

unfoldable pub list : Method Node (List Held)
list = do all ← Service.on_index Store.list_all; pure (map held_of all)

abbrev pub get_lease : String → Method Node (Option LeaseRecord)
get_lease lease_id = Service.on_leases (Manager.get lease_id)

unfoldable pub sweep : OrphanTracker → Node → Result Error ℕ × OrphanTracker × Node
sweep = sweep_once get_lease list λ held. reclaim held.lease_id
