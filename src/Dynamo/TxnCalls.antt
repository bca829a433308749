-- ===== src/Dynamo/TxnCalls.antt =====
-- Calls on the transactions in DynamoDB (djinn/providers/dynamo/src/txn_store.rs) beside the same
-- calls on those in memory (djinn/providers/local/src/txn_store.rs).
use coordin.Common.{
  String, Bool, true, Option, some, List, [], ◌∷◌, Result, ◌≡◌, ◌↔◌, if◌then◌else◌, ◌==◌, All,
}
use coordin.Common.Dict
use coordin.Common.Dict.{Dict}
use coordin.Error.{Error}
use coordin.Txn.{TransactionState, TransactionRecord, ParticipantRecord}
use coordin.Txn.Store
use coordin.Txn.Store.{InMemoryTxnStore}
use coordin.Dynamo.{str, list, Values, nil, cons, Item, Client, Formats}
use coordin.Dynamo.Tables.{Table}
use coordin.Dynamo.Matching
use coordin.Dynamo.TxnStore
use coordin.Dynamo.TxnStore.{DynamoTxnStore, state_to_str, participants_to_av}
use coordin.Dynamo.RoundTrips.{Counted}

-- `list_append`
abbrev pub append_values : Values → Values → Values
append_values nil vs = vs
append_values (cons u us) vs = cons u (append_values us vs)

-- What is documented of the expressions that the store writes.
pub record TxnExpressions {W : Type 0} {client : Client W} {table_name : String}
    (t : Table client table_name "txn_id") : Type 0 where
  pub exists :
      (names : Dict String) (values row : Item)
      → t.holds "attribute_exists(txn_id)" names values row ≡ Dict.contains_key "txn_id" row
  pub expected :
      (text : String) (values row : Item)
      → Dict.get ":exp" values ≡ some (str text)
      → (t.holds "#s = :exp" (("#s", "state") ∷ []) values row ≡ true)
        ↔ (Dict.get "state" row ≡ some (str text))
  pub is_active :
      (text : String) (values row : Item)
      → Dict.get ":active" values ≡ some (str text)
      → (t.holds "#s = :active" (("#s", "state") ∷ []) values row ≡ true)
        ↔ (Dict.get "state" row ≡ some (str text))
  pub set :
      (values row : Item) (k : String)
      → Dict.get k (t.updated "SET #s = :s" (("#s", "state") ∷ []) values row)
        ≡ (if "state" == k then Dict.get ":s" values else Dict.get k row)
  pub set_new :
      (values row : Item) (k : String)
      → Dict.get k (t.updated "SET #s = :new" (("#s", "state") ∷ []) values row)
        ≡ (if "state" == k then Dict.get ":new" values else Dict.get k row)
  pub append :
      (values row : Item) (old added : Values) (k : String)
      → Dict.get "participants" row ≡ some (list old)
      → Dict.get ":p" values ≡ some (list added)
      → Dict.get k (
          t.updated "SET participants = list_append(participants, :p)"
            (("#s", "state") ∷ [])
            values
            row)
        ≡ (if "participants" == k then some (list (append_values old added)) else Dict.get k row)

-- The row holds the transaction of the key.
pub record Holds (formats : Formats) (k : String) (r : TransactionRecord) (item : Item)
    : Type 0 where
  pub named : r.txn_id ≡ k
  pub txn_id : Dict.get "txn_id" item ≡ some (str r.txn_id)
  pub lease_id : Dict.get "lease_id" item ≡ some (str r.lease_id)
  pub state : Dict.get "state" item ≡ some (str (state_to_str r.state))
  pub begun_at : Dict.get "begun_at" item ≡ some (str (formats.to_rfc3339 r.begun_at))
  pub participants : Dict.get "participants" item ≡ some (participants_to_av r.participants)
  pub counted : All Counted r.participants

abbrev pub Same :
    {W : Type 0} → Formats → (W → String → Option Item) → W → InMemoryTxnStore → Type 0
Same formats rows w m = Matching.Same (Holds formats) rows w m

pub data Call : Type 0 where
  create : TransactionRecord → Call
  get : String → Call
  update_state : String → TransactionState → Call
  update_state_if : String → TransactionState → TransactionState → Call
  add_participant : String → ParticipantRecord → Call
  remove : String → Call

pub data Answer : Type 0 where
  done : Result Error Unit → Answer
  found : Result Error (Option TransactionRecord) → Answer
  updated : Result Error Bool → Answer

abbrev pub local : Call → InMemoryTxnStore → Answer × InMemoryTxnStore
local (create r) m = let (a, t) = Store.create r m in (done a, t)
local (get id) m = let (a, t) = Store.get id m in (found a, t)
local (update_state id state) m = let (a, t) = Store.update_state id state m in (done a, t)
local (update_state_if id expected new) m =
    let (a, t) = Store.update_state_if id expected new m in (updated a, t)
local (add_participant id p) m = let (a, t) = Store.add_participant id p m in (done a, t)
local (remove id) m = let (a, t) = Store.remove id m in (done a, t)

module _ {W : Type 0} (client : Client W) (formats : Formats) (store : DynamoTxnStore) where
  abbrev pub remote : Call → W → Answer × W
  remote (create r) w = let (a, t) = TxnStore.create client formats store r w in (done a, t)
  remote (get id) w = let (a, t) = TxnStore.get client formats store id w in (found a, t)
  remote (update_state id state) w =
      let (a, t) = TxnStore.update_state client formats store id state w in (done a, t)
  remote (update_state_if id expected new) w =
      let (a, t) = TxnStore.update_state_if client formats store id expected new w in (updated a, t)
  remote (add_participant id p) w =
      let (a, t) = TxnStore.add_participant client formats store id p w in (done a, t)
  remote (remove id) w = let (a, t) = TxnStore.remove client formats store id w in (done a, t)

-- The answers to a list of calls, one after the other, with the state at the end.
abbrev pub answers : {S : Type 0} → (Call → S → Answer × S) → List Call → S → List Answer × S
answers step [] s = ([], s)
answers step (c ∷ cs) s =
    let (a, t) = step c s in let (rest, end) = answers step cs t in (a ∷ rest, end)

-- The counters of participants are a `u64`.
abbrev pub InRange : Call → Type 0
InRange (create r) = All Counted r.participants
InRange (add_participant id p) = Counted p
InRange _ = Unit
