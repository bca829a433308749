-- ===== src/Djinn/Tests.antt =====
-- Runs of the sweep and the cascade, and the theorems at concrete inputs.
use coordin.Common.{
  ℕ, String, false, none, some, List, [], ◌∷◌, ◌++◌, map, ok, ◌≡◌, ◌↔◌, refl, arith, In, here,
}
use coordin.Common.Dict
use coordin.Lease.{LeaseRecord, LeaseReclaimed, expired}
use coordin.Lease.Manager.{LeaseManager, reap}
use coordin.Registry.{RegistryEntry}
use coordin.Registry.Store.{empty, insert}
use coordin.Registry.Coherence.{IsCoherent, insert-IsCoherent}
use coordin.Djinn.Cascade.{cascade}
use coordin.Djinn.Sweep.{contains, new_tracker, pass}
use coordin.Djinn.Strikes.{pass-second_strike}
use coordin.Djinn.RegistryNode.{Node, held_of, on_reclaimed, sweep}
use coordin.Djinn.Orphans.{leased, sweep-TwoPasses}
use coordin.Djinn.Follow.{unless_expired, cascade-reap}

abbrev printer : RegistryEntry
printer = record {
  capability_id = "c1";
  lease_id = "l1";
  interface = "Printer";
  attrs = [];
  transport = none;
}

abbrev orphan : RegistryEntry
orphan = record printer { capability_id = "c2"; lease_id = "l2" }

abbrev lease : LeaseRecord
lease = record {
  lease_id = "l1";
  resource_id = "c1";
  granted_at = 0;
  expires_at = 30;
  ttl_seconds = 30;
}

abbrev leases : LeaseManager
leases = record {
  store = ("l1", lease) ∷ [];
  config = record { max_ttl = none; preferred_ttl = 30 };
  expiry_tx = [];
}

abbrev node : Node
node = record { index = (insert orphan (insert printer empty).1).1; leases = leases; event_tx = [] }

node-IsCoherent : IsCoherent node.index
unfolding Dict.get insert Dict.insert Dict.remove
node-IsCoherent =
    insert-IsCoherent orphan (insert printer empty).1
      (insert-IsCoherent printer empty
        (record { keyed = tt; indexed = λ c e h. cc; held = λ l c h. cc }) refl refl)
      refl refl

pass-second_strike_example :
    In (held_of orphan) (pass (held_of orphan ∷ []) (pass (held_of orphan ∷ []) new_tracker).1).0
    ↔ (In (held_of orphan) (held_of orphan ∷ [])
        × In (held_of orphan) (held_of orphan ∷ [])
        × (contains (held_of orphan) new_tracker.suspects ≡ false))
pass-second_strike_example =
    pass-second_strike new_tracker (held_of orphan ∷ []) (held_of orphan ∷ []) (held_of orphan)

sweep-TwoPasses_example :
    Dict.get "c2" (sweep (sweep new_tracker node).1 (sweep new_tracker node).2).2.index.entries
    ≡ leased node (Dict.get "c2" node.index.entries)
sweep-TwoPasses_example = sweep-TwoPasses new_tracker node node-IsCoherent "c2"

abbrev report : LeaseReclaimed
report = record { lease_record = lease; reason = expired }

reap_run : (reap 31 leases).expiry_tx ≡ report ∷ []
unfolding reap Dict.get coordin.Lease.Manager.drain_expired coordin.Lease.Store.list_expired
    coordin.Lease.Manager.remove_unchanged coordin.Common.filter coordin.Lease.is_expired
    coordin.Lease.Store.remove_if_unchanged
reap_run = refl

cascade-reap_example :
    Dict.get "c1"
      (cascade on_reclaimed
        (map ok (report ∷ []))
        (record node { leases = reap 31 leases })).index.entries
    ≡ unless_expired 31 node (Dict.get "c1" node.index.entries)
unfolding Dict.get
cascade-reap_example =
    cascade-reap 31 node (report ∷ []) node-IsCoherent (refl, refl, tt) reap_run "c1"
