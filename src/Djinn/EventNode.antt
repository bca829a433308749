-- ===== src/Djinn/EventNode.antt =====
-- How the event manager is tied to its leases (djinn/crates/coordin8-djinn/src/services.rs): its
-- cascade, and what its orphan sweep lists and reclaims.
use coordin.Common.{ℕ, String, List, map, ignore, Result, pure, ◌>>=◌}
use coordin.Error.{Error, Method}
use coordin.Lease.{LeaseReclaimed}
use coordin.Lease.Manager as LeaseManagers
use coordin.Lease.Manager.{LeaseManager}
use coordin.Event.{SubscriptionRecord}
use coordin.Event.Store
use coordin.Event.Manager
use coordin.Event.Manager.{EventManager}
use coordin.Djinn.Sweep.{Held, OrphanTracker, sweep_once}

abbrev pub Node : Type 0
Node = EventManager LeaseManager

unfoldable pub reclaim : String → Node → Node
reclaim lease_id = ignore (Manager.unsubscribe_by_lease lease_id)

unfoldable pub on_reclaimed : LeaseReclaimed → Node → Node
on_reclaimed event = reclaim event.lease_record.lease_id

abbrev pub held_of : SubscriptionRecord → Held
held_of s = record { kind = "subscription"; id = s.registration_id; lease_id = s.lease_id }

unfoldable pub list : Method Node (List Held)
list = do all ← Manager.on_store Store.list_subscriptions; pure (map held_of all)

unfoldable pub sweep : OrphanTracker → Node → Result Error ℕ × OrphanTracker × Node
sweep =
    sweep_once (λ lease_id. Manager.on_leases (LeaseManagers.get lease_id)) list
      λ held. reclaim held.lease_id
