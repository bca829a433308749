-- ===== src/Txn/Store.antt =====
-- The in-memory transaction store (djinn/providers/local/src/txn_store.rs). Each method holds its
-- entry of the map while it runs, so it is atomic.
use coordin.Common.{
  String, Bool, true, false, Option, none, some, List, [], ◌∷◌, ◌++◌, ok, err, gets, if◌then◌else◌,
  not,
}
use coordin.Common.Dict
use coordin.Common.Dict.{Dict}
use coordin.Error.{Method, transaction_not_found, transaction_terminal}
use coordin.Txn.{TransactionState, TransactionRecord, ParticipantRecord, same_state, active}

abbrev pub InMemoryTxnStore : Type 0
InMemoryTxnStore = Dict TransactionRecord

unfoldable pub create : TransactionRecord → Method InMemoryTxnStore Unit
create r m = (ok tt, Dict.insert r.txn_id r m)

unfoldable pub get : String → Method InMemoryTxnStore (Option TransactionRecord)
get txn_id = gets (Dict.get txn_id)

unfoldable pub update_state : String → TransactionState → Method InMemoryTxnStore Unit
update_state txn_id state m = elim (Dict.get txn_id m) [
  | some r ↦ (ok tt, Dict.insert txn_id (record r { state = state }) m)
  | none ↦ (err (transaction_not_found txn_id), m)
]

unfoldable pub update_state_if :
    String → TransactionState → TransactionState → Method InMemoryTxnStore Bool
update_state_if txn_id expected new m = elim (Dict.get txn_id m) [
  | some r ↦
      if same_state r.state expected
      then (ok true, Dict.insert txn_id (record r { state = new }) m)
      else (ok false, m)
  | none ↦ (err (transaction_not_found txn_id), m)
]

unfoldable pub add_participant : String → ParticipantRecord → Method InMemoryTxnStore Unit
add_participant txn_id participant m = elim (Dict.get txn_id m) [
  | some r ↦ if not (same_state r.state active) then (err (transaction_terminal txn_id), m) else (
    ok tt,
    Dict.insert txn_id (record r { participants = r.participants ++ participant ∷ [] }) m,
  )
  | none ↦ (err (transaction_not_found txn_id), m)
]

unfoldable pub remove : String → Method InMemoryTxnStore Unit
remove txn_id m = (ok tt, Dict.remove txn_id m)

unfoldable pub list_all : Method InMemoryTxnStore (List TransactionRecord)
list_all = gets Dict.values
