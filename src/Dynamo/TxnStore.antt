-- ===== src/Dynamo/TxnStore.antt =====
-- Transactions in DynamoDB (djinn/providers/dynamo/src/txn_store.rs).
use Prim.Native.String.{◌++◌}
use coordin.Common.{
  String, Bool, true, false, Option, none, some, List, [], ◌∷◌, ◌++◌ as append, Result, ok, err,
  and_then, lift, pure, ◌>>=◌, if◌then◌else◌, ◌==◌, map, ℕ,
}
use coordin.Common.Dict
use coordin.Common.Text.{show_u64}
use coordin.Error.{Error, Method, storage, transaction_not_found, transaction_terminal}
use coordin.Txn.{
  TransactionState, active, voting, prepared, committed, aborted, TransactionRecord,
  ParticipantRecord,
}
use coordin.Dynamo.{
  AttributeValue, str, num, list, obj, Item, SdkError, Client, Formats, Page, failed, send,
  or_failed,
}
use coordin.Dynamo.Creation.{init as init_with, ensure_txn_table, txn_table}
use coordin.Dynamo.Items.{
  get_s, get_date, as_s, as_n, or_bad, parse_u64, or_missing, to_fields, of_fields, to_values,
  read_values,
}
use coordin.Dynamo.Paging.{pages}

pub record DynamoTxnStore : Type 0 where
  pub table_name : String

abbrev pub new : DynamoTxnStore
new = record { table_name = txn_table }

unfoldable pub state_to_str : TransactionState → String
state_to_str active = "Active"
state_to_str voting = "Voting"
state_to_str prepared = "Prepared"
state_to_str committed = "Committed"
state_to_str aborted = "Aborted"

unfoldable pub state_from_str : String → Result Error TransactionState
state_from_str s =
    if s == "Active"
    then ok active
    else if s == "Voting"
    then ok voting
    else if s == "Prepared"
    then ok prepared
    else if s == "Committed"
    then ok committed
    else if s == "Aborted"
    then ok aborted
    else err (storage ("unknown transaction state: " ++ s))

unfoldable pub participant_to_av : ParticipantRecord → AttributeValue
participant_to_av p =
    obj (
      to_fields (("endpoint", str p.endpoint) ∷ ("crash_count", num (show_u64 p.crash_count)) ∷ []))

abbrev participant_count : Item → Result Error ℕ
participant_count m =
    and_then (or_missing "participant crash_count" (as_n (Dict.get "crash_count" m)))
      λ t. or_bad "crash_count" (parse_u64 t)

abbrev participant_from_map : Item → Result Error ParticipantRecord
participant_from_map m =
    and_then (or_missing "participant endpoint" (as_s (Dict.get "endpoint" m))) λ endpoint.
      and_then (participant_count m)
        λ crash_count. ok (record { endpoint = endpoint; crash_count = crash_count })

unfoldable pub participant_from_av : AttributeValue → Result Error ParticipantRecord
participant_from_av (obj m) = participant_from_map (of_fields m)
participant_from_av _ = err (storage "participant is not a map")

abbrev participants_in : Option AttributeValue → Result Error (List ParticipantRecord)
participants_in (some (list values)) = read_values participant_from_av values
participants_in _ = ok []

unfoldable pub participants_to_av : List ParticipantRecord → AttributeValue
participants_to_av participants = list (to_values (map participant_to_av participants))

module _ (formats : Formats) where
  unfoldable pub record_from_item : Item → Result Error TransactionRecord
  record_from_item item = and_then (get_s "txn_id" item) λ txn_id.
      and_then (get_s "lease_id" item) λ lease_id.
        and_then (and_then (get_s "state" item) state_from_str) λ state.
          and_then (get_date formats "begun_at" item) λ begun_at.
            and_then (participants_in (Dict.get "participants" item)) λ participants. ok (record {
              txn_id = txn_id;
              lease_id = lease_id;
              state = state;
              participants = participants;
              begun_at = begun_at;
            })

  abbrev pub read_found : Option Item → Result Error (Option TransactionRecord)
  read_found none = ok none
  read_found (some item) = and_then (record_from_item item) λ r. ok (some r)

  -- The item that `create` puts.
  unfoldable pub item_of : TransactionRecord → Item
  item_of r =
      ("txn_id", str r.txn_id)
      ∷ ("lease_id", str r.lease_id)
      ∷ ("state", str (state_to_str r.state))
      ∷ ("begun_at", str (formats.to_rfc3339 r.begun_at))
      ∷ ("participants", participants_to_av r.participants)
      ∷ []

  abbrev pub push_record : Item → List TransactionRecord → Result Error (List TransactionRecord)
  push_record item records = and_then (record_from_item item) λ r. ok (append records (r ∷ []))

abbrev pub key_of : String → Item
key_of txn_id = ("txn_id", str txn_id) ∷ []

module _ {W : Type 0} (client : Client W) (formats : Formats) (store : DynamoTxnStore) where
  unfoldable pub init : Option String → Method W Unit
  init auto_create = init_with auto_create (ensure_txn_table client store.table_name)

  unfoldable pub create : TransactionRecord → Method W Unit
  create r = send "put_item" (
      client.put_item
        (record { table_name = store.table_name; item = item_of formats r; condition = none }))

  unfoldable pub get : String → Method W (Option TransactionRecord)
  get txn_id = do
    item ←
        send "get_item"
          (client.get_item (record { table_name = store.table_name; key = key_of txn_id }))
    lift (read_found formats item)

  abbrev pub state_answer : String → Result SdkError (Option Item) → Result Error Unit
  state_answer txn_id (ok attributes) = ok tt
  state_answer txn_id (err e) = or_failed "update_item" (err (transaction_not_found txn_id)) e

  unfoldable pub update_state : String → TransactionState → Method W Unit
  update_state txn_id state w =
      let answer =
        client.update_item
          (record {
            return_new = false;
            table_name = store.table_name;
            key = key_of txn_id;
            update = "SET #s = :s";
            attribute_names = ("#s", "state") ∷ [];
            attribute_values = (":s", str (state_to_str state)) ∷ [];
            condition = some "attribute_exists(txn_id)";
          })
          w in
      (state_answer txn_id answer.0, answer.1)

  -- Where the condition failed: the state is another one, or the item is missing.
  abbrev pub or_absent :
      {A : Type 0} → String → Result Error A → Option TransactionRecord → Method W A
  or_absent txn_id refused (some r) = lift refused
  or_absent txn_id refused none = lift (err (transaction_not_found txn_id))

  abbrev pub conditional :
      {A : Type 0}
      → String
      → Result Error A
      → Result Error A
      → Result SdkError (Option Item) × W
      → Result Error A × W
  conditional txn_id accepted refused (ok attributes, w) = (accepted, w)
  conditional txn_id accepted refused (err e, w) =
      if e.is_conditional_check_failed
      then (do found ← get txn_id; or_absent txn_id refused found) w
      else (failed "update_item" (err e), w)

  unfoldable pub update_state_if : String → TransactionState → TransactionState → Method W Bool
  update_state_if txn_id expected new w = conditional txn_id (ok true) (ok false) (
      client.update_item
        (record {
          return_new = false;
          table_name = store.table_name;
          key = key_of txn_id;
          update = "SET #s = :new";
          attribute_names = ("#s", "state") ∷ [];
          attribute_values =
              (":new", str (state_to_str new)) ∷ (":exp", str (state_to_str expected)) ∷ [];
          condition = some "#s = :exp";
        })
        w)

  unfoldable pub add_participant : String → ParticipantRecord → Method W Unit
  add_participant txn_id participant w =
      conditional txn_id (ok tt) (err (transaction_terminal txn_id)) (
        client.update_item
          (record {
            return_new = false;
            table_name = store.table_name;
            key = key_of txn_id;
            update = "SET participants = list_append(participants, :p)";
            attribute_names = ("#s", "state") ∷ [];
            attribute_values =
                (":p", list (to_values (participant_to_av participant ∷ [])))
                ∷ (":active", str (state_to_str active))
                ∷ [];
            condition = some "#s = :active";
          })
          w)

  unfoldable pub remove : String → Method W Unit
  remove txn_id = do
    attributes ← send "delete_item" (
        client.delete_item (record {
          return_old = false;
          table_name = store.table_name;
          key = key_of txn_id;
          condition = none;
          attribute_values = [];
        }))
    pure tt

  abbrev pub all_scan : Option Item → Method W Page
  all_scan last_key = send "scan" (
      client.scan (record {
        table_name = store.table_name;
        filter = none;
        attribute_names = [];
        attribute_values = [];
        limit = none;
        exclusive_start_key = last_key;
      }))

  -- With at most so many pages.
  unfoldable pub list_all : ℕ → Method W (Option (List TransactionRecord))
  list_all fuel = pages all_scan (push_record formats) fuel none []
