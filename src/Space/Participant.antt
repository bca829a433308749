-- ===== src/Space/Participant.antt =====
-- The Space as a participant of two-phase commit (djinn/crates/coordin8-space/src/participant.rs).
-- A handler answers a prepare with the number of its vote.
use coordin.Common.{ℕ, String, Bool, true, false, Option, ok, err, if◌then◌else◌, ◌>>=◌, ◌>>◌, pure}
use coordin.Error.{Error, Method, unavailable as unavailable_error, to_string}
use coordin.Lease.Leasing.{Leasing}
use coordin.Space.Manager
use coordin.Space.Manager.{SpaceManager, TxnEnlister}
use coordin.Status.{Status, Handler, unavailable, internal}

unfoldable pub map_err : Error → Status
map_err (unavailable_error text) = record {
  code = unavailable;
  message = to_string (unavailable_error text);
}
map_err e = record { code = internal; message = to_string e }

-- `.await.map_err(map_err)?`
abbrev pub or_status : {S A : Type 0} → Method S A → Handler S A
or_status m s = elim (m s).0 [ ok a ↦ (ok a, (m s).1) | err e ↦ (err (map_err e), (m s).1) ]

module _ {L N : Type 0} (leasing : Leasing L) (enlister : Option (TxnEnlister N)) where
  unfoldable pub prepare : String → Handler (SpaceManager L N) ℕ
  prepare txn_id = do
    has_state ← or_status (Manager.has_txn leasing enlister txn_id)
    pure (if has_state then 0 else 1)

  unfoldable pub commit : String → Handler (SpaceManager L N) Unit
  commit txn_id = or_status (Manager.commit_space_txn leasing enlister txn_id)

  unfoldable pub abort : String → Handler (SpaceManager L N) Unit
  abort txn_id = or_status (Manager.abort_space_txn leasing enlister txn_id)

  abbrev commit_if : Bool → String → Handler (SpaceManager L N) ℕ
  commit_if true txn_id = do or_status (Manager.commit_space_txn leasing enlister txn_id); pure 0
  commit_if false txn_id = pure 1

  unfoldable pub prepare_and_commit : String → Handler (SpaceManager L N) ℕ
  prepare_and_commit txn_id = do
    has_state ← or_status (Manager.has_txn leasing enlister txn_id)
    commit_if has_state txn_id
