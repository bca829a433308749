-- ===== src/Dynamo/Creation.antt =====
-- The creation of tables (djinn/providers/dynamo/src/table.rs). A fault of a table's creation is a text.
use Prim.Native.String.{◌++◌}
use coordin.Common.{
  String, Option, [], ◌∷◌, Exec, Result, ok, err, ◌>>◌, if◌then◌else◌, map_err as on_err,
}
use coordin.Error.{Method, storage}
use coordin.Dynamo.{
  SdkError, Client, CreateTable, hash, range, ScalarAttributeType, text_type, number_type,
  GlobalSecondaryIndex, auto_create_enabled,
}

abbrev pub registry_table : String
registry_table = "coordin8_registry"

abbrev pub txn_table : String
txn_table = "coordin8_txn"

abbrev pub event_sub_table : String
event_sub_table = "coordin8_event_subscriptions"

abbrev pub event_mailbox_table : String
event_mailbox_table = "coordin8_event_mailbox"

abbrev pub space_table : String
space_table = "coordin8_space"

abbrev pub space_uncommitted_table : String
space_uncommitted_table = "coordin8_space_uncommitted"

abbrev pub space_txn_taken_table : String
space_txn_taken_table = "coordin8_space_txn_taken"

abbrev pub space_watches_table : String
space_watches_table = "coordin8_space_watches"

-- The index by lease, under one name in each table that has it.
abbrev pub lease_gsi : String
lease_gsi = "lease_id-index"

-- A table that exists already is fine.
unfoldable pub handle_create_result : Result SdkError Unit → Result String Unit
handle_create_result (ok created) = ok tt
handle_create_result (err e) =
    if e.is_resource_in_use then ok tt else err ("create_table failed: " ++ e.message)

-- An index by one text attribute.
abbrev index_by : String → String → GlobalSecondaryIndex
index_by name attribute = record { index_name = name; key_schema = (attribute, hash) ∷ [] }

-- A table with one text attribute as its key, and one with an index by `lease_id` too.
abbrev keyed_table : String → String → CreateTable
keyed_table table_name key = record {
  table_name = table_name;
  attribute_definitions = (key, text_type) ∷ [];
  key_schema = (key, hash) ∷ [];
  global_secondary_indexes = [];
}

abbrev leased_table : String → String → CreateTable
leased_table table_name key = record {
  table_name = table_name;
  attribute_definitions = (key, text_type) ∷ ("lease_id", text_type) ∷ [];
  key_schema = (key, hash) ∷ [];
  global_secondary_indexes = index_by lease_gsi "lease_id" ∷ [];
}

-- A table whose key has a second part.
abbrev ranged_table : String → String → String → ScalarAttributeType → CreateTable
ranged_table table_name key second type = record {
  table_name = table_name;
  attribute_definitions = (key, text_type) ∷ (second, type) ∷ [];
  key_schema = (key, hash) ∷ (second, range) ∷ [];
  global_secondary_indexes = [];
}

module _ {W : Type 0} (client : Client W) where
  abbrev created : CreateTable → Exec String W Unit
  created table w =
      (handle_create_result (client.create_table table w).0, (client.create_table table w).1)

  -- A failure to enable TTL is only logged.
  unfoldable pub ensure_lease_table : String → Exec String W Unit
  ensure_lease_table table_name = do
    created (record {
      table_name = table_name;
      attribute_definitions = ("lease_id", text_type) ∷ ("resource_id", text_type) ∷ [];
      key_schema = ("lease_id", hash) ∷ [];
      global_secondary_indexes = index_by "resource_id-index" "resource_id" ∷ [];
    })
    (λ w. (ok tt, (client.update_time_to_live table_name "ttl" w).1))

  unfoldable pub ensure_registry_table : String → Exec String W Unit
  ensure_registry_table table_name = created (leased_table table_name "capability_id")

  unfoldable pub ensure_txn_table : String → Exec String W Unit
  ensure_txn_table table_name = created (keyed_table table_name "txn_id")

  unfoldable pub ensure_event_sub_table : String → Exec String W Unit
  ensure_event_sub_table table_name = created (leased_table table_name "registration_id")

  unfoldable pub ensure_event_mailbox_table : String → Exec String W Unit
  ensure_event_mailbox_table table_name =
      created (ranged_table table_name "registration_id" "seq_num" number_type)

  unfoldable pub ensure_space_table : String → Exec String W Unit
  ensure_space_table table_name = created (leased_table table_name "tuple_id")

  unfoldable pub ensure_space_uncommitted_table : String → Exec String W Unit
  ensure_space_uncommitted_table table_name =
      created (ranged_table table_name "txn_id" "tuple_id" text_type)

  unfoldable pub ensure_space_txn_taken_table : String → Exec String W Unit
  ensure_space_txn_taken_table table_name =
      created (ranged_table table_name "txn_id" "tuple_id" text_type)

  unfoldable pub ensure_space_watches_table : String → Exec String W Unit
  ensure_space_watches_table table_name = created (leased_table table_name "watch_id")

-- The `init` of a store, given the environment variable and what creates its tables.
abbrev pub init : {W : Type 0} → Option String → Exec String W Unit → Method W Unit
init auto_create ensure w =
    if auto_create_enabled auto_create
    then (on_err storage (ensure w).0, (ensure w).1)
    else (ok tt, w)
