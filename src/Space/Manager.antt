-- ===== src/Space/Manager.antt =====
-- The Space (djinn/crates/coordin8-space/src/manager.rs). `L` is the state of its lease grantor and
-- `N` that of the transaction manager it enlists with. The broadcast channels are the lists of what was sent,
-- oldest first; what the clock and the random source give are arguments.
use Prim.Native.String.{◌++◌ as concat}
use coordin.Common.{
  ℕ, String, Bool, Option, none, some, List, [], ◌∷◌, ◌++◌, Result, ok, err, pure, ok_or, ◌>>=◌,
  ◌>>◌, for_each, if◌then◌else◌,
}
use coordin.Common.Dict
use coordin.Common.Dict.{Dict}
use coordin.Error.{Error, Method, internal, tuple_not_found}
use coordin.Lease.{LeaseRecord}
use coordin.Lease.Leasing.{Leasing}
use coordin.Space.{TupleRecord, SpaceEventKind}
use coordin.Space.Store
use coordin.Space.Store.{InMemorySpaceStore, matches_tuple}

-- `TxnEnlister`: the transaction and the endpoint to call back.
pub record TxnEnlister (N : Type 0) : Type 0 where
  pub enlist : String → String → Method N Unit

pub record SpaceManager (L N : Type 0) : Type 0 where
  pub store : InMemorySpaceStore
  pub leases : L
  pub tuple_tx : List TupleRecord
  pub expiry_tx : List TupleRecord
  pub txns : N
  pub participant_endpoint : Option String
  pub enlisted : Dict (Unit {0})

module _ {L N : Type 0} where
  abbrev pub on_store : {A : Type 0} → Method InMemorySpaceStore A → Method (SpaceManager L N) A
  on_store m s = ((m s.store).0, record s { store = (m s.store).1 })

  abbrev pub on_leases : {A : Type 0} → Method L A → Method (SpaceManager L N) A
  on_leases m s = ((m s.leases).0, record s { leases = (m s.leases).1 })

  abbrev pub on_txns : {A : Type 0} → Method N A → Method (SpaceManager L N) A
  on_txns m s = ((m s.txns).0, record s { txns = (m s.txns).1 })

  abbrev pub send_tuple : TupleRecord → SpaceManager L N → SpaceManager L N
  send_tuple r s = record s { tuple_tx = s.tuple_tx ++ r ∷ [] }

  abbrev pub mark_enlisted : String → SpaceManager L N → SpaceManager L N
  mark_enlisted txn_id s = record s { enlisted = Dict.insert txn_id tt s.enlisted }

  abbrev pub unmark_enlisted : String → SpaceManager L N → SpaceManager L N
  unmark_enlisted txn_id s = record s { enlisted = Dict.remove txn_id s.enlisted }

-- `ensure_enlisted`, where the gateway is optional.
module _ {L N : Type 0} (enlister : Option (TxnEnlister N)) where
  abbrev enlist_with : TxnEnlister N → String → Method (SpaceManager L N) Unit
  enlist_with gateway txn_id s = elim s.participant_endpoint [
    | none ↦ (err (internal "space participant_endpoint not configured"), s)
    | some endpoint ↦
        (do on_txns (gateway.enlist txn_id endpoint); (λ s. (ok tt, mark_enlisted txn_id s))) s
  ]

  unfoldable pub ensure_enlisted : String → Method (SpaceManager L N) Unit
  ensure_enlisted txn_id s = elim enlister [
    | none ↦ (ok tt, s)
    | some gateway ↦
        if Dict.contains_key txn_id s.enlisted then (ok tt, s) else enlist_with gateway txn_id s
  ]

module _ {L N : Type 0} (leasing : Leasing L) (enlister : Option (TxnEnlister N)) where
  -- `let _ = self.lease_manager.cancel(&record.lease_id).await`
  abbrev pub release : TupleRecord → SpaceManager L N → SpaceManager L N
  release r s = record s { leases = (leasing.cancel r.lease_id s.leases).1 }

  abbrev pub store_tuple : Option String → TupleRecord → Method (SpaceManager L N) Unit
  store_tuple (some txn_id) r = do
    ensure_enlisted enlister txn_id
    on_store (Store.insert_uncommitted txn_id r)
  store_tuple none r = do on_store (Store.insert r); (λ s. (ok tt, send_tuple r s))

  unfoldable pub write :
      ℕ
      → String
      → Dict String
      → List ℕ
      → ℕ
      → String
      → Option String
      → Option String
      → Method (SpaceManager L N) (TupleRecord × LeaseRecord)
  write now tuple_id attrs payload ttl_secs written_by input_tuple_id txn_id = do
    lease ← on_leases (leasing.grant (concat "space:" tuple_id) ttl_secs)
    let r : TupleRecord = record {
      tuple_id = tuple_id;
      attrs = attrs;
      payload = payload;
      lease_id = lease.lease_id;
      written_by = written_by;
      written_at = now;
      input_tuple_id = input_tuple_id;
    }
    store_tuple txn_id r
    pure (r, lease)

  -- The immediate attempt of `read`.
  unfoldable pub try_read :
      Dict String → Option String → Method (SpaceManager L N) (Option TupleRecord)
  try_read template txn_id = on_store (Store.find_match template txn_id)

  abbrev pub consumed : Option String → Option TupleRecord → SpaceManager L N → SpaceManager L N
  consumed none (some r) s = release r s
  consumed none none s = s
  consumed (some txn_id) found s = s

  -- An attempt of `take`: outside a transaction the lease is cancelled at once.
  unfoldable pub try_take :
      Dict String → Option String → Method (SpaceManager L N) (Option TupleRecord)
  try_take template txn_id = do
    found ← on_store (Store.take_match template txn_id)
    (λ s. (ok found, consumed txn_id found s))

  unfoldable pub contents :
      Dict String → Option String → Method (SpaceManager L N) (List TupleRecord)
  contents template txn_id = on_store (Store.find_all_matches template txn_id)

  unfoldable pub commit_space_txn : String → Method (SpaceManager L N) Unit
  commit_space_txn txn_id = do
    moved ← on_store (Store.commit_txn txn_id)
    (λ s. (ok tt, unmark_enlisted txn_id s))
    (λ s. (ok tt, for_each moved.1 release s))
    (λ s. (ok tt, for_each moved.0 send_tuple s))

  unfoldable pub abort_space_txn : String → Method (SpaceManager L N) Unit
  abort_space_txn txn_id = do
    moved ← on_store (Store.abort_txn txn_id)
    (λ s. (ok tt, unmark_enlisted txn_id s))
    (λ s. (ok tt, for_each moved.0 release s))
    (λ s. (ok tt, for_each moved.1 send_tuple s))

  unfoldable pub has_txn : String → Method (SpaceManager L N) Bool
  has_txn txn_id = on_store (Store.has_txn txn_id)

  unfoldable pub notify :
      String
      → Dict String
      → SpaceEventKind
      → ℕ
      → List ℕ
      → Method (SpaceManager L N) (String × String)
  notify watch_id template kind ttl_secs handback = do
    lease ← on_leases (leasing.grant (concat "space-watch:" watch_id) ttl_secs)
    on_store (
        Store.create_watch (record {
          watch_id = watch_id;
          template = template;
          on = kind;
          lease_id = lease.lease_id;
          handback = handback;
        }))
    pure (watch_id, lease.lease_id)

  abbrev announce_expiry : Result Error (Option TupleRecord) → SpaceManager L N → SpaceManager L N
  announce_expiry (ok (some r)) s = record s { expiry_tx = s.expiry_tx ++ r ∷ [] }
  announce_expiry _ s = s

  unfoldable pub on_tuple_expired : String → SpaceManager L N → SpaceManager L N
  on_tuple_expired lease_id s =
      let (removed, t) = on_store (Store.remove_by_lease lease_id) s in announce_expiry removed t

  unfoldable pub on_watch_expired : String → SpaceManager L N → SpaceManager L N
  on_watch_expired lease_id s = (on_store (Store.remove_watch_by_lease lease_id) s).1

  unfoldable pub cancel : String → Method (SpaceManager L N) Unit
  cancel tuple_id = do
    removed ← on_store (Store.remove tuple_id)
    r ← ok_or (tuple_not_found tuple_id) removed
    on_leases (leasing.cancel r.lease_id)

  unfoldable pub renew : String → ℕ → Method (SpaceManager L N) LeaseRecord
  renew tuple_id ttl_secs = do
    found ← on_store (Store.get tuple_id)
    r ← ok_or (tuple_not_found tuple_id) found
    on_leases (leasing.renew r.lease_id ttl_secs)
