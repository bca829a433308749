-- ===== src/Dynamo/RegistryStore.antt =====
-- Registry entries in DynamoDB (djinn/providers/dynamo/src/registry_store.rs).
use Prim.Native.String.{◌++◌}
use coordin.Common.{
  false, ℕ, String, Option, none, some, List, [], ◌∷◌, ◌++◌ as append, Result, ok, err, and_then,
  lift, pure, ◌>>=◌,
}
use coordin.Common.Dict
use coordin.Common.Dict.{Dict}
use coordin.Error.{Error, Method, storage}
use coordin.Registry.{RegistryEntry, TransportConfig}
use coordin.Dynamo.{AttributeValue, str, obj, Item, SdkError, Client, Page, send, or_failed}
use coordin.Dynamo.Creation.{init as init_with, ensure_registry_table, registry_table, lease_gsi}
use coordin.Dynamo.Items.{get_s, as_s, text_map, read_texts}
use coordin.Dynamo.Paging.{pages, or_empty, first}

pub record DynamoRegistryStore : Type 0 where
  pub table_name : String

abbrev pub new : DynamoRegistryStore
new = record { table_name = registry_table }

abbrev pub transport_fields : Option TransportConfig → Item
transport_fields none = []
transport_fields (some t) =
    ("transport_type", str t.transport_type) ∷ ("transport_config", obj (text_map t.config)) ∷ []

unfoldable pub entry_to_item : RegistryEntry → Item
entry_to_item e =
    append
      (("capability_id", str e.capability_id)
        ∷ ("lease_id", str e.lease_id)
        ∷ ("interface", str e.interface)
        ∷ ("attrs", obj (text_map e.attrs))
        ∷ [])
      (transport_fields e.transport)

abbrev not_a_string : String → String → Error
not_a_string map k = storage (map ++ " value for key '" ++ k ++ "' is not a string")

abbrev attrs_in : Option AttributeValue → Result Error (Dict String)
attrs_in (some (obj m)) = read_texts (not_a_string "attrs") m
attrs_in _ = ok []

abbrev transport_in :
    Option AttributeValue → Option AttributeValue → Result Error (Option TransportConfig)
transport_in (some (str transport_type)) (some (obj m)) =
    and_then (read_texts (not_a_string "transport_config") m)
      λ config. ok (some (record { transport_type = transport_type; config = config }))
transport_in _ _ = ok none

unfoldable pub entry_from_item : Item → Result Error RegistryEntry
entry_from_item item = and_then (get_s "capability_id" item) λ capability_id.
    and_then (get_s "lease_id" item) λ lease_id. and_then (get_s "interface" item) λ interface.
      and_then (attrs_in (Dict.get "attrs" item)) λ attrs.
        and_then (transport_in (Dict.get "transport_type" item) (Dict.get "transport_config" item))
          λ transport. ok (record {
            capability_id = capability_id;
            lease_id = lease_id;
            interface = interface;
            attrs = attrs;
            transport = transport;
          })

abbrev pub read_found : Option Item → Result Error (Option RegistryEntry)
read_found none = ok none
read_found (some item) = and_then (entry_from_item item) λ e. ok (some e)

abbrev pub push_entry : Item → List RegistryEntry → Result Error (List RegistryEntry)
push_entry item entries = and_then (entry_from_item item) λ e. ok (append entries (e ∷ []))

abbrev pub update_answer :
    RegistryEntry → Result SdkError Unit → Result Error (Option RegistryEntry)
update_answer entry (ok accepted) = ok (some entry)
update_answer entry (err e) = or_failed "put_item (update)" (ok none) e

abbrev index_key : Item → Result Error String
index_key item = elim (as_s (Dict.get "capability_id" item)) [
  | none ↦ err (storage "GSI item missing capability_id")
  | some id ↦ ok id
]

module _ {W : Type 0} (client : Client W) (store : DynamoRegistryStore) where
  unfoldable pub init : Option String → Method W Unit
  init auto_create = init_with auto_create (ensure_registry_table client store.table_name)

  unfoldable pub insert : RegistryEntry → Method W Unit
  insert entry = send "put_item" (
      client.put_item
        (record { table_name = store.table_name; item = entry_to_item entry; condition = none }))

  unfoldable pub update : RegistryEntry → Method W (Option RegistryEntry)
  update entry w =
      let answer =
        client.put_item
          (record {
            table_name = store.table_name;
            item = entry_to_item entry;
            condition = some "attribute_exists(capability_id)";
          })
          w in
      (update_answer entry answer.0, answer.1)

  abbrev by_lease : String → String → Method W Page
  by_lease call lease_id = send call (
      client.query (record {
        table_name = store.table_name;
        index_name = some lease_gsi;
        key_condition = "lease_id = :lid";
        attribute_values = (":lid", str lease_id) ∷ [];
        limit = some 1;
        scan_index_forward = none;
        exclusive_start_key = none;
      }))

  abbrev remove_found : Option Item → Method W (Option RegistryEntry)
  remove_found none = pure none
  remove_found (some item) = do
    capability_id ← lift (index_key item)
    entry ← lift (entry_from_item item)
    deleted ← send "delete_item" (
        client.delete_item (record {
          return_old = false;
          table_name = store.table_name;
          key = ("capability_id", str capability_id) ∷ [];
          condition = none;
          attribute_values = [];
        }))
    pure (some entry)

  unfoldable pub remove_by_lease : String → Method W (Option RegistryEntry)
  remove_by_lease lease_id = do
    page ← by_lease "query (lease GSI)" lease_id
    remove_found (first (or_empty page.items))

  unfoldable pub get : String → Method W (Option RegistryEntry)
  get capability_id = do
    item ← send "get_item" (
        client.get_item (record {
          table_name = store.table_name;
          key = ("capability_id", str capability_id) ∷ [];
        }))
    lift (read_found item)

  unfoldable pub get_by_lease : String → Method W (Option RegistryEntry)
  get_by_lease lease_id = do
    page ← by_lease "query (lease GSI)" lease_id
    lift (read_found (first (or_empty page.items)))

  abbrev pub all_scan : Option Item → Method W Page
  all_scan last_key = send "scan" (
      client.scan (record {
        table_name = store.table_name;
        filter = none;
        attribute_names = [];
        attribute_values = [];
        limit = none;
        exclusive_start_key = last_key;
      }))

  -- With at most so many pages.
  unfoldable pub list_all : ℕ → Method W (Option (List RegistryEntry))
  list_all fuel = pages all_scan push_entry fuel none []
