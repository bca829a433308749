-- ===== src/Dynamo/SpaceStore/Watches.antt =====
-- The methods of `DynamoSpaceStore` on watches (djinn/providers/dynamo/src/space_store.rs).
use coordin.Common.{
  ℕ, String, false, Option, none, some, List, [], ◌∷◌, Result, ok, and_then, pure, lift, ◌>>=◌,
}
use coordin.Error.{Error, Method}
use coordin.Space.{SpaceWatchRecord}
use coordin.Dynamo.{str, Item, Client, send}
use coordin.Dynamo.Creation.{lease_gsi}
use coordin.Dynamo.Paging.{or_empty, first}
use coordin.Dynamo.SpaceStore.{DynamoSpaceStore, watch_from_item, watch_to_item, and_with, scan_all}

unfoldable pub read_watches : List Item → Result Error (List SpaceWatchRecord)
read_watches [] = ok []
read_watches (item ∷ items) =
    and_then (watch_from_item item) λ w. and_then (read_watches items) λ ws. ok (w ∷ ws)

module _ {W : Type 0} (client : Client W) (store : DynamoSpaceStore) where
  unfoldable pub create_watch : SpaceWatchRecord → Method W Unit
  create_watch watch = send "put_item" (
      client.put_item
        (record { table_name = store.watches_table; item = watch_to_item watch; condition = none }))

  unfoldable pub remove_watch : String → Method W Unit
  remove_watch watch_id = do
    deleted ← send "delete_item" (
        client.delete_item (record {
          table_name = store.watches_table;
          return_old = false;
          key = ("watch_id", str watch_id) ∷ [];
          condition = none;
          attribute_values = [];
        }))
    pure tt

  abbrev remove_found : Option Item → Method W (Option SpaceWatchRecord)
  remove_found none = pure none
  remove_found (some item) = do
    watch ← lift (watch_from_item item)
    done ← remove_watch watch.watch_id
    pure (some watch)

  unfoldable pub remove_watch_by_lease : String → Method W (Option SpaceWatchRecord)
  remove_watch_by_lease lease_id = do
    page ← send "query (lease GSI)" (
        client.query (record {
          table_name = store.watches_table;
          index_name = some lease_gsi;
          key_condition = "lease_id = :lid";
          attribute_values = (":lid", str lease_id) ∷ [];
          limit = some 1;
          scan_index_forward = none;
          exclusive_start_key = none;
        }))
    remove_found (first (or_empty page.items))

  unfoldable pub list_watches : ℕ → Method W (Option (List SpaceWatchRecord))
  list_watches fuel =
      and_with (scan_all client fuel store.watches_table)
        λ items. do ws ← lift (read_watches items); pure (some ws)
