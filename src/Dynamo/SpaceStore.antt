-- ===== src/Dynamo/SpaceStore.antt =====
-- Tuples and watches in DynamoDB (djinn/providers/dynamo/src/space_store.rs): the items of the tables,
-- and the loops that read them. Such a loop has at most so many pages; `none` means that they did not
-- suffice.
pub mod Tuples
pub mod Endings
pub mod Watches
use Prim.Native.String.{◌++◌}
use coordin.Common.{
  ℕ, String, Bool, true, false, Option, none, some, List, [], ◌∷◌, ◌++◌ as append, Result, ok, err,
  and_then, pure, lift, ◌>>=◌, ◌>>◌, ◌==◌, if◌then◌else◌,
}
use coordin.Common.Dict
use coordin.Error.{Error, Method, storage}
use coordin.Space.{TupleRecord, SpaceWatchRecord, SpaceEventKind, appearance, expiration}
use coordin.Dynamo.{AttributeValue, str, bool, obj, Item, Client, Formats, Page, send}
use coordin.Dynamo.Creation.{
  init as init_with, ensure_space_table, ensure_space_uncommitted_table,
  ensure_space_txn_taken_table, ensure_space_watches_table, space_table, space_uncommitted_table,
  space_txn_taken_table, space_watches_table,
}
use coordin.Dynamo.Items.{get_s, as_s, get_date, text_map, texts_in, bytes_in, bytes_field}
use coordin.Dynamo.Paging.{pages}

pub record DynamoSpaceStore : Type 0 where
  pub tuple_table : String
  pub uncommitted_table : String
  pub txn_taken_table : String
  pub watches_table : String

abbrev pub new : DynamoSpaceStore
new = record {
  tuple_table = space_table;
  uncommitted_table = space_uncommitted_table;
  txn_taken_table = space_txn_taken_table;
  watches_table = space_watches_table;
}

abbrev pub input_field : Option String → Item
input_field none = []
input_field (some input_id) = ("input_tuple_id", str input_id) ∷ []

module _ (formats : Formats) where
  unfoldable pub tuple_to_item : TupleRecord → Item
  tuple_to_item r =
      append
        (("tuple_id", str r.tuple_id)
          ∷ ("lease_id", str r.lease_id)
          ∷ ("written_by", str r.written_by)
          ∷ ("written_at", str (formats.to_rfc3339 r.written_at))
          ∷ ("attrs", obj (text_map r.attrs))
          ∷ [])
        (append (bytes_field "payload" r.payload) (input_field r.input_tuple_id))

  unfoldable pub tuple_from_item : Item → Result Error TupleRecord
  tuple_from_item item = and_then (get_s "tuple_id" item) λ tuple_id.
      and_then (get_s "lease_id" item) λ lease_id. and_then (get_s "written_by" item) λ written_by.
        and_then (get_date formats "written_at" item) λ written_at.
          and_then (texts_in "attrs" (Dict.get "attrs" item)) λ attrs. ok (record {
            tuple_id = tuple_id;
            attrs = attrs;
            payload = bytes_in (Dict.get "payload" item);
            lease_id = lease_id;
            written_by = written_by;
            written_at = written_at;
            input_tuple_id = as_s (Dict.get "input_tuple_id" item);
          })

  -- `item.insert("txn_id", …)`, for the tables of the transactions.
  unfoldable pub txn_item : String → TupleRecord → Item
  txn_item txn_id r = ("txn_id", str txn_id) ∷ tuple_to_item r

  -- The item of a transaction's own write that it took.
  unfoldable pub own_item : String → TupleRecord → Item
  own_item txn_id r = ("own_write", bool true) ∷ txn_item txn_id r

abbrev is_true : Option AttributeValue → Bool
is_true (some (bool b)) = b
is_true _ = false

unfoldable pub is_own_write : Item → Bool
is_own_write item = is_true (Dict.get "own_write" item)

-- `{:?}` of an optional text, as far as the error shows it.
abbrev shown : Option String → String
shown none = "None"
shown (some t) = "Some(\"" ++ t ++ "\")"

abbrev kind_from : Option String → Result Error SpaceEventKind
kind_from none = err (storage "unknown SpaceEventKind: None")
kind_from (some t) =
    if t == "Appearance"
    then ok appearance
    else if t == "Expiration"
    then ok expiration
    else err (storage ("unknown SpaceEventKind: " ++ shown (some t)))

unfoldable pub watch_from_item : Item → Result Error SpaceWatchRecord
watch_from_item item = and_then (get_s "watch_id" item) λ watch_id.
    and_then (get_s "lease_id" item) λ lease_id.
      and_then (kind_from (as_s (Dict.get "on" item))) λ kind.
        and_then (texts_in "template" (Dict.get "template" item)) λ template. ok (record {
          watch_id = watch_id;
          template = template;
          on = kind;
          lease_id = lease_id;
          handback = bytes_in (Dict.get "handback" item);
        })

abbrev kind_to_str : SpaceEventKind → String
kind_to_str appearance = "Appearance"
kind_to_str expiration = "Expiration"

-- The item that `create_watch` puts.
unfoldable pub watch_to_item : SpaceWatchRecord → Item
watch_to_item w =
    append
      (("watch_id", str w.watch_id)
        ∷ ("lease_id", str w.lease_id)
        ∷ ("on", str (kind_to_str w.on))
        ∷ ("template", obj (text_map w.template))
        ∷ [])
      (bytes_field "handback" w.handback)

abbrev pub push_item : Item → List Item → Result Error (List Item)
push_item item items = ok (append items (item ∷ []))

-- What follows the pages, where they sufficed.
abbrev pub and_with :
    {W A B : Type 0} → Method W (Option A) → (A → Method W (Option B)) → Method W (Option B)
and_with m f = do got ← m; elim got [ none ↦ pure none | some a ↦ f a ]

module _ {W : Type 0} (client : Client W) where
  abbrev pub scan_page : String → Option Item → Method W Page
  scan_page table_name last_key = send "scan" (
      client.scan (record {
        table_name = table_name;
        filter = none;
        attribute_names = [];
        attribute_values = [];
        limit = none;
        exclusive_start_key = last_key;
      }))

  unfoldable pub scan_all : ℕ → String → Method W (Option (List Item))
  scan_all fuel table_name = pages (scan_page table_name) push_item fuel none []

  abbrev pub key_page : String → String → String → Option Item → Method W Page
  key_page table_name pk_name pk_value last_key = send "query" (
      client.query (record {
        table_name = table_name;
        index_name = none;
        key_condition = pk_name ++ " = :pk";
        attribute_values = (":pk", str pk_value) ∷ [];
        limit = none;
        scan_index_forward = none;
        exclusive_start_key = last_key;
      }))

  unfoldable pub query_by_pk : ℕ → String → String → String → Method W (Option (List Item))
  query_by_pk fuel table_name pk_name pk_value =
      pages (key_page table_name pk_name pk_value) push_item fuel none []

  abbrev lease_page : String → String → Option Item → Method W Page
  lease_page table_name lease_id last_key = send "scan (lease filter)" (
      client.scan (record {
        table_name = table_name;
        filter = some "lease_id = :lid";
        attribute_names = [];
        attribute_values = (":lid", str lease_id) ∷ [];
        limit = none;
        exclusive_start_key = last_key;
      }))

  unfoldable pub scan_by_lease : ℕ → String → String → Method W (Option (List Item))
  scan_by_lease fuel table_name lease_id =
      pages (lease_page table_name lease_id) push_item fuel none []

  unfoldable pub init : DynamoSpaceStore → Option String → Method W Unit
  init store auto_create = init_with auto_create (do
    ensure_space_table client store.tuple_table
    ensure_space_uncommitted_table client store.uncommitted_table
    ensure_space_txn_taken_table client store.txn_taken_table
    ensure_space_watches_table client store.watches_table)
