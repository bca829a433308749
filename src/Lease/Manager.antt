-- ===== src/Lease/Manager.antt =====
-- The lease manager that each service embeds, and its reaper
-- (djinn/crates/coordin8-lease/src/manager.rs and reaper.rs). `expiry_tx` holds what was broadcast,
-- oldest first; sending on a channel without receivers is not an error for the code.
use coordin.Common.{
  ℕ, String, Option, none, some, List, [], ◌∷◌, ◌++◌, Result, ok, err, pure, raise, ok_or, ◌>>=◌,
  ◌>>◌, if◌then◌else◌,
}
use coordin.Error.{Error, Method, lease_not_found, lease_expired}
use coordin.Lease.{
  Chrono, LeaseRecord, LeaseConfig, LeaseReclaimed, expired, cancelled, is_expired, negotiate,
}
use coordin.Lease.Store
use coordin.Lease.Store.{InMemoryLeaseStore}

pub record LeaseManager : Type 0 where
  pub store : InMemoryLeaseStore
  pub config : LeaseConfig
  pub expiry_tx : List LeaseReclaimed

unfoldable pub new : LeaseConfig → LeaseManager
new config = record { store = []; config = config; expiry_tx = [] }

abbrev pub on_store : {A : Type 0} → Method InMemoryLeaseStore A → Method LeaseManager A
on_store m s = ((m s.store).0, record s { store = (m s.store).1 })

abbrev pub send : LeaseReclaimed → LeaseManager → LeaseManager
send event s = record s { expiry_tx = s.expiry_tx ++ event ∷ [] }

unfoldable pub get : String → Method LeaseManager (Option LeaseRecord)
get lease_id = on_store (Store.get lease_id)

-- The loop of `drain_expired` over the leases that were listed.
unfoldable pub remove_unchanged : List LeaseRecord → Method LeaseManager (List LeaseRecord)
remove_unchanged [] = pure []
remove_unchanged (r ∷ rest) = do
  gone ← on_store (Store.remove_if_unchanged r)
  removed ← remove_unchanged rest
  pure (if gone then r ∷ removed else removed)

unfoldable pub drain_expired : ℕ → Method LeaseManager (List LeaseRecord)
drain_expired now = do listed ← on_store (Store.list_expired now); remove_unchanged listed

unfoldable pub grant : Chrono → ℕ → String → String → ℕ → Method LeaseManager LeaseRecord
grant chrono now uuid resource_id ttl_secs s =
    on_store (Store.create chrono now uuid resource_id (negotiate s.config ttl_secs)) s

unfoldable pub renew : Chrono → ℕ → String → ℕ → Method LeaseManager LeaseRecord
renew chrono now lease_id ttl_secs s =
    (do
      found ← on_store (Store.get lease_id)
      r ← ok_or (lease_not_found lease_id) found
      if is_expired now r
          then raise (lease_expired lease_id)
          else on_store (Store.renew chrono now lease_id (negotiate s.config ttl_secs)))
      s

abbrev announce : Option LeaseRecord → Method LeaseManager Unit
announce none s = (ok tt, s)
announce (some r) s = (ok tt, send (record { lease_record = r; reason = cancelled }) s)

unfoldable pub cancel : String → Method LeaseManager Unit
cancel lease_id = do r ← on_store (Store.get lease_id); on_store (Store.cancel lease_id); announce r

abbrev pub announce_expired : List LeaseRecord → LeaseManager → LeaseManager
announce_expired [] s = s
announce_expired (r ∷ rest) s =
    announce_expired rest (send (record { lease_record = r; reason = expired }) s)

abbrev sweep : Result Error (List LeaseRecord) → LeaseManager → LeaseManager
sweep (ok listed) s = announce_expired listed s
sweep (err e) s = s

-- One round of the loop of `run_reaper`.
unfoldable pub reap : ℕ → LeaseManager → LeaseManager
reap now s = sweep (drain_expired now s).0 (drain_expired now s).1
