-- ===== src/Djinn/TxnNode.antt =====
-- How the transaction manager is tied to its leases (djinn/crates/coordin8-djinn/src/services.rs): its
-- cascade, and what its orphan sweep lists and reclaims.
use coordin.Common.{
  ℕ, Bool, true, false, none, some, List, map, filter, ignore, Result, pure, ◌>>=◌,
}
use coordin.Common.Text.{strip_prefix}
use coordin.Error.{Error, Method}
use coordin.Lease.{LeaseReclaimed}
use coordin.Lease.Manager as LeaseManagers
use coordin.Lease.Manager.{LeaseManager}
use coordin.Lease.Leasing.{Leasing}
use coordin.Txn.{TransactionRecord, active}
use coordin.Txn.Participants.{Network}
use coordin.Txn.Store
use coordin.Txn.Manager
use coordin.Txn.Manager.{TxnManager}
use coordin.Djinn.Sweep.{Held, OrphanTracker, sweep_once}

abbrev pub Node : Type 0
Node = TxnManager LeaseManager

abbrev is_active : TransactionRecord → Bool
is_active t = elim t.state [ active ↦ true | _ ↦ false ]

abbrev pub held_of : TransactionRecord → Held
held_of t = record { kind = "txn"; id = t.txn_id; lease_id = t.lease_id }

-- Only active transactions.
unfoldable pub list : Method Node (List Held)
list = do all ← Manager.on_store Store.list_all; pure (map held_of (filter is_active all))

module _ (leasing : Leasing LeaseManager) (net : Network) where
  unfoldable pub on_reclaimed : LeaseReclaimed → Node → Node
  on_reclaimed event s = elim (strip_prefix "txn:" event.lease_record.resource_id) [
    | none ↦ s
    | some txn_id ↦ ignore (Manager.abort_expired leasing net txn_id) s
  ]

  unfoldable pub sweep : OrphanTracker → Node → Result Error ℕ × OrphanTracker × Node
  sweep =
      sweep_once (λ lease_id. Manager.on_leases (LeaseManagers.get lease_id)) list
        λ held. ignore (Manager.abort_expired leasing net held.id)
