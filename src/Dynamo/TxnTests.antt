-- ===== src/Dynamo/TxnTests.antt =====
-- Transactions on a table in memory, batches of deletes, and the theorems at concrete inputs.
use coordin.Common.{
  String, Bool, true, Option, none, some, List, [], ◌∷◌, ok, ◌≡◌, refl, arith, ◌↔◌, if◌then◌else◌,
  ◌==◌, In, here, there, inl, inr, ◌⊎◌,
}
use coordin.Common.Dict
use coordin.Common.Dict.{Dict}
use coordin.Registry.{RegistryEntry}
use coordin.Txn.{TransactionRecord, active, voting, committed}
use coordin.Dynamo.{AttributeValue, str, list, Values, Item, Client}
use coordin.Dynamo.Tables.{Table}
use coordin.Dynamo.TestTable
use coordin.Dynamo.TestTable.{
  World, formats, formats_read, put_or, get-put_or, same_text, text_equals,
}
use coordin.Dynamo.TxnStore.{DynamoTxnStore}
use coordin.Dynamo.TxnCalls.{
  TxnExpressions, Same, Call, create, get, update_state, update_state_if, add_participant, remove,
  local, remote, answers, append_values,
}
use coordin.Dynamo.TxnRefinement.{answers_agree}
use coordin.Dynamo.RegistryStore.{entry_from_item, entry_to_item}
use coordin.Dynamo.RoundTrips.{entry_from_item-entry_to_item}
use coordin.Dynamo.EventStore.{DynamoEventStore}
use coordin.Dynamo.EventStore.Mailbox.{
  batch_delete, left_of, flush, flush_chunks, chunks, mailbox_key,
}
use coordin.Dynamo.BatchDelete.{Deletes, batch_delete-Gone}

holds : String → Dict String → Item → Item → Bool
holds condition names values row =
    if condition == "attribute_exists(txn_id)"
    then Dict.contains_key "txn_id" row
    else if condition == "#s = :exp"
    then same_text (Dict.get "state" row) (Dict.get ":exp" values)
    else same_text (Dict.get "state" row) (Dict.get ":active" values)

abbrev appended : Option AttributeValue → Option AttributeValue → Option AttributeValue
appended (some (list old)) (some (list added)) = some (list (append_values old added))
appended _ _ = none

updated : String → Dict String → Item → Item → Item
updated update names values row =
    if update == "SET #s = :s"
    then put_or "state" (Dict.get ":s" values) row
    else if update == "SET #s = :new"
    then put_or "state" (Dict.get ":new" values) row
    else put_or "participants" (appended (Dict.get "participants" row) (Dict.get ":p" values)) row

abbrev client : Client World
client = TestTable.client "txn_id" holds updated

abbrev store : DynamoTxnStore
store = record { table_name = "coordin8_txn" }

abbrev txn_table : Table client store.table_name "txn_id"
txn_table = TestTable.table "txn_id" holds updated store.table_name

holds_exists :
    (names : Dict String) (values row : Item)
    → holds "attribute_exists(txn_id)" names values row ≡ Dict.contains_key "txn_id" row
unfolding holds
holds_exists names values row = refl

holds_expected :
    (text : String) (values row : Item)
    → Dict.get ":exp" values ≡ some (str text)
    → (holds "#s = :exp" (("#s", "state") ∷ []) values row ≡ true)
      ↔ (Dict.get "state" row ≡ some (str text))
unfolding holds
holds_expected text values row e = rw e (text_equals (Dict.get "state" row) text)

holds_active :
    (text : String) (values row : Item)
    → Dict.get ":active" values ≡ some (str text)
    → (holds "#s = :active" (("#s", "state") ∷ []) values row ≡ true)
      ↔ (Dict.get "state" row ≡ some (str text))
unfolding holds
holds_active text values row e = rw e (text_equals (Dict.get "state" row) text)

updated_set :
    (values row : Item) (k : String)
    → Dict.get k (updated "SET #s = :s" (("#s", "state") ∷ []) values row)
      ≡ (if "state" == k then Dict.get ":s" values else Dict.get k row)
unfolding updated
updated_set values row k = get-put_or "state" k (Dict.get ":s" values) row

updated_new :
    (values row : Item) (k : String)
    → Dict.get k (updated "SET #s = :new" (("#s", "state") ∷ []) values row)
      ≡ (if "state" == k then Dict.get ":new" values else Dict.get k row)
unfolding updated
updated_new values row k = get-put_or "state" k (Dict.get ":new" values) row

updated_append :
    (values row : Item) (old added : Values) (k : String)
    → Dict.get "participants" row ≡ some (list old)
    → Dict.get ":p" values ≡ some (list added)
    → Dict.get k (
        updated "SET participants = list_append(participants, :p)"
          (("#s", "state") ∷ [])
          values
          row)
      ≡ (if "participants" == k then some (list (append_values old added)) else Dict.get k row)
unfolding updated
updated_append values row old added k e f = rw (e, f) (get-put_or "participants" k _ row)

abbrev expressions : TxnExpressions txn_table
expressions = record {
  exists = holds_exists;
  expected = holds_expected;
  is_active = holds_active;
  set = updated_set;
  set_new = updated_new;
  append = updated_append;
}

abbrev begun : TransactionRecord
begun = record { txn_id = "x1"; lease_id = "l1"; state = active; participants = []; begun_at = 5 }

-- A participant is added, and refused once the transaction has another state.
abbrev calls : List Call
calls =
    create begun
    ∷ add_participant "x1" (record { endpoint = "http://a:1"; crash_count = 0 })
    ∷ update_state_if "x1" active voting
    ∷ update_state_if "x1" active committed
    ∷ add_participant "x1" (record { endpoint = "http://b:1"; crash_count = 0 })
    ∷ update_state "x1" committed
    ∷ get "x1"
    ∷ remove "x1"
    ∷ update_state_if "x1" active voting
    ∷ []

answers_agree_example :
    ((answers (remote client formats store) calls []).0 ≡ (answers local calls []).0)
    × Same formats txn_table.rows
        (answers (remote client formats store) calls []).1
        (answers local calls []).1
unfolding Dict.get
answers_agree_example =
    answers_agree client formats store txn_table expressions formats_read calls [] [] (omega arith)
      (tt, (tt, (tt, (tt, (tt, (tt, (tt, (tt, (tt, tt))))))))) (λ k. tt)

abbrev printer : RegistryEntry
printer = record {
  capability_id = "c1";
  lease_id = "l1";
  interface = "Printer";
  attrs = ("floor", "2") ∷ [];
  transport = some (record { transport_type = "tcp"; config = ("host", "h") ∷ ("port", "1") ∷ [] });
}

entry_from_item-entry_to_item_example : entry_from_item (entry_to_item printer) ≡ ok printer
entry_from_item-entry_to_item_example = entry_from_item-entry_to_item printer

abbrev rest_of : List Item → List Item
rest_of [] = []
rest_of (k ∷ ks) = ks

abbrev first_of : List Item → List Item → List Item
first_of [] w = w
first_of (k ∷ ks) w = k ∷ w

-- A service that processes the first key of each batch. The world lists the deleted keys.
abbrev slow : Client (List Item)
slow = record {
  put_item = λ q w. (ok tt, w);
  get_item = λ q w. (ok none, w);
  delete_item = λ q w. (ok none, w);
  update_item = λ q w. (ok none, w);
  query = λ q w. (ok (record { items = none; last_evaluated_key = none }), w);
  scan = λ q w. (ok (record { items = none; last_evaluated_key = none }), w);
  batch_write_item = λ table keys w. (ok (some ((table, rest_of keys) ∷ [])), first_of keys w);
  create_table = λ q w. (ok tt, w);
  update_time_to_live = λ table attribute w. (ok tt, w);
}

abbrev mailboxes : DynamoEventStore
mailboxes = record { sub_table = "subs"; mailbox_table = "mail" }

slow_processes :
    (keys : List Item) (w : List Item) (unprocessed : Option (Dict (List Item)))
    → (slow.batch_write_item "mail" keys w).0 ≡ ok unprocessed
    → (key : Item) → In key keys
    → In key (left_of "mail" unprocessed) ⊎ In key (slow.batch_write_item "mail" keys w).1
unfolding Dict.get
slow_processes [] w u e key m = elim m [ ]
slow_processes (k ∷ ks) w u e key (here q) = inr (here q)
slow_processes (k ∷ ks) w u e key (there m) =
    let same : some (("mail", ks) ∷ []) ≡ u = cc in rw (← same) (inl m)

slow_keeps :
    (keys : List Item) (w : List Item) (key : Item)
    → In key w
    → In key (slow.batch_write_item "mail" keys w).1
slow_keeps [] w key m = m
slow_keeps (k ∷ ks) w key m = there m

abbrev slow_deletes : Deletes slow "mail" (λ w key. In key w)
slow_deletes = record { processed = slow_processes; keeps = slow_keeps }

abbrev three_keys : List Item
three_keys = mailbox_key "s1" "1" ∷ mailbox_key "s1" "2" ∷ mailbox_key "s1" "3" ∷ []

batch_delete-Gone_example :
    In (mailbox_key "s1" "3") (batch_delete slow formats mailboxes three_keys []).1
unfolding batch_delete flush flush_chunks chunks Dict.get
batch_delete-Gone_example =
    batch_delete-Gone slow formats mailboxes (λ w key. In key w) slow_deletes three_keys [] refl
      (mailbox_key "s1" "3") (there (there (here refl)))
