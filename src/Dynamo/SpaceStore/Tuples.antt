-- ===== src/Dynamo/SpaceStore/Tuples.antt =====
-- The methods of `DynamoSpaceStore` on tuples (djinn/providers/dynamo/src/space_store.rs). `fuel` is the
-- number of pages that each of a method's loops may read.
use coordin.Common.{
  ℕ, String, Bool, true, false, Option, none, some, List, [], ◌∷◌, ◌++◌, Result, ok, err, and_then,
  pure, lift, ◌>>=◌, ◌>>◌, if◌then◌else◌, ◌||◌,
}
use coordin.Common.Dict
use coordin.Common.Dict.{Dict}
use coordin.Error.{Error, Method, storage}
use coordin.Space.{TupleRecord}
use coordin.Space.Store.{matches_tuple, is_empty}
use coordin.Dynamo.{str, Item, SdkError, Client, Formats, send, or_failed}
use coordin.Dynamo.Creation.{lease_gsi}
use coordin.Dynamo.Items.{as_s}
use coordin.Dynamo.Paging.{or_empty, first}
use coordin.Dynamo.SpaceStore.{
  DynamoSpaceStore, tuple_to_item, tuple_from_item, txn_item, own_item, and_with, scan_all,
  query_by_pk, scan_by_lease,
}

abbrev pub tuple_key : String → Item
tuple_key tuple_id = ("tuple_id", str tuple_id) ∷ []

abbrev pub txn_key : String → String → Item
txn_key txn_id tuple_id = ("txn_id", str txn_id) ∷ ("tuple_id", str tuple_id) ∷ []

abbrev pub text_or_error : String → Option String → Result Error String
text_or_error message none = err (storage message)
text_or_error message (some t) = ok t

abbrev pub found : {A : Type 0} → A → Option (Option A)
found a = some (some a)

-- What a conditional delete comes to: an error, or the item it deleted, where it deleted one.
abbrev pub taken_or : Result SdkError (Option Item) → Result Error (Option Item)
taken_or (ok attributes) = ok attributes
taken_or (err e) = or_failed "delete_item" (ok none) e

module _ (formats : Formats) where
  abbrev pub read_found : Option Item → Result Error (Option TupleRecord)
  read_found none = ok none
  read_found (some item) = and_then (tuple_from_item formats item) λ r. ok (some r)

  -- The first of the items whose tuple the template matches.
  unfoldable pub first_match : Dict String → List Item → Result Error (Option TupleRecord)
  first_match template [] = ok none
  first_match template (item ∷ items) = and_then (tuple_from_item formats item) λ r.
      let rest = first_match template items in
      if matches_tuple template r then ok (some r) else rest

  unfoldable pub all_matches : Dict String → List Item → Result Error (List TupleRecord)
  all_matches template [] = ok []
  all_matches template (item ∷ items) = and_then (tuple_from_item formats item) λ r.
      and_then (all_matches template items)
        λ rs. ok (if is_empty template || matches_tuple template r then r ∷ rs else rs)

  -- `items.iter().map(tuple_from_item).collect()`
  unfoldable pub read_tuples : List Item → Result Error (List TupleRecord)
  read_tuples [] = ok []
  read_tuples (item ∷ items) =
      and_then (tuple_from_item formats item) λ r. and_then (read_tuples items) λ rs. ok (r ∷ rs)

module _ {W : Type 0} (client : Client W) (formats : Formats) (store : DynamoSpaceStore) where
  abbrev pub put : String → String → Item → Method W Unit
  put call table_name item =
      send call
        (client.put_item (record { table_name = table_name; item = item; condition = none }))

  abbrev pub delete : String → Bool → Item → Method W (Option Item)
  delete table_name return_old key = send "delete_item" (
      client.delete_item (record {
        table_name = table_name;
        return_old = return_old;
        key = key;
        condition = none;
        attribute_values = [];
      }))

  unfoldable pub insert : TupleRecord → Method W Unit
  insert r = put "put_item" store.tuple_table (tuple_to_item formats r)

  unfoldable pub insert_uncommitted : String → TupleRecord → Method W Unit
  insert_uncommitted txn_id r = put "put_item" store.uncommitted_table (txn_item formats txn_id r)

  unfoldable pub get : String → Method W (Option TupleRecord)
  get tuple_id = do
    item ←
        send "get_item"
          (client.get_item (record { table_name = store.tuple_table; key = tuple_key tuple_id }))
    lift (read_found formats item)

  unfoldable pub remove : String → Method W (Option TupleRecord)
  remove tuple_id = do
    item ← delete store.tuple_table true (tuple_key tuple_id)
    lift (read_found formats item)

  -- The items of a buffer's table, until a delete finds one still there.
  unfoldable pub remove_first_of : String → List Item → Method W (Option TupleRecord)
  remove_first_of table_name [] = pure none
  remove_first_of table_name (item ∷ items) = do
    txn_id ← lift (text_or_error "buffer item missing txn_id" (as_s (Dict.get "txn_id" item)))
    tuple_id ← lift (text_or_error "buffer item missing tuple_id" (as_s (Dict.get "tuple_id" item)))
    old ← delete table_name true (txn_key txn_id tuple_id)
    elim old [
      | none ↦ remove_first_of table_name items
      | some deleted ↦ lift (read_found formats (some deleted))
    ]

  unfoldable pub remove_txn_buffered_by_lease : ℕ → String → Method W (Option (Option TupleRecord))
  remove_txn_buffered_by_lease fuel lease_id =
      and_with (scan_by_lease client fuel store.uncommitted_table lease_id) λ items. do
        own ← remove_first_of store.uncommitted_table items
        elim own [
          | some r ↦ pure (found r)
          | none ↦
              and_with (scan_by_lease client fuel store.txn_taken_table lease_id) λ taken_items. do
                taken ← remove_first_of store.txn_taken_table taken_items
                pure (some taken)
        ]

  unfoldable pub remove_by_lease : ℕ → String → Method W (Option (Option TupleRecord))
  remove_by_lease fuel lease_id = do
    page ← send "query (lease GSI)" (
        client.query (record {
          table_name = store.tuple_table;
          index_name = some lease_gsi;
          key_condition = "lease_id = :lid";
          attribute_values = (":lid", str lease_id) ∷ [];
          limit = some 1;
          scan_index_forward = none;
          exclusive_start_key = none;
        }))
    elim (first (or_empty page.items)) [
      | none ↦ remove_txn_buffered_by_lease fuel lease_id
      | some item ↦ do
        tuple_id ←
            lift (text_or_error "GSI item missing tuple_id" (as_s (Dict.get "tuple_id" item)))
        removed ← remove tuple_id
        elim removed [ some r ↦ pure (found r) | none ↦ remove_txn_buffered_by_lease fuel lease_id ]
    ]

  abbrev pub own_items : ℕ → Option String → Method W (Option (List Item))
  own_items fuel none = pure (some [])
  own_items fuel (some txn_id) = query_by_pk client fuel store.uncommitted_table "txn_id" txn_id

  unfoldable pub find_match :
      ℕ → Dict String → Option String → Method W (Option (Option TupleRecord))
  find_match fuel template txn_id = and_with (scan_all client fuel store.tuple_table) λ items. do
    committed ← lift (first_match formats template items)
    elim committed [
      | some r ↦ pure (found r)
      | none ↦
          and_with (own_items fuel txn_id)
            λ uncommitted. do own ← lift (first_match formats template uncommitted); pure (some own)
    ]

  -- The transaction's own write that it takes.
  abbrev pub take_own : String → TupleRecord → Method W TupleRecord
  take_own txn_id r = do
    deleted ← delete store.uncommitted_table false (txn_key txn_id r.tuple_id)
    put "put_item (txn_taken)" store.txn_taken_table (own_item formats txn_id r)
    pure r

  abbrev pub track : Option String → TupleRecord → Method W TupleRecord
  track none r = pure r
  track (some txn_id) r = do
    put "put_item (txn_taken)" store.txn_taken_table (txn_item formats txn_id r)
    pure r

  -- The delete that only one taker wins.
  abbrev pub delete_committed : String → Method W (Option Item)
  delete_committed tuple_id w =
      let answer =
        client.delete_item
          (record {
            table_name = store.tuple_table;
            return_old = true;
            key = tuple_key tuple_id;
            condition = some "attribute_exists(tuple_id)";
            attribute_values = [];
          })
          w in
      (taken_or answer.0, answer.1)

  -- The loop over the committed tuples.
  unfoldable pub take_committed :
      Dict String → Option String → List Item → Method W (Option TupleRecord)
  take_committed template txn_id [] = pure none
  take_committed template txn_id (item ∷ items) = do
    r ← lift (tuple_from_item formats item)
    elim (matches_tuple template r) [
      | false ↦ take_committed template txn_id items
      | true ↦ do
        deleted ← delete_committed r.tuple_id
        elim deleted [
          | none ↦ take_committed template txn_id items
          | some deleted_item ↦ do
            taken ← lift (tuple_from_item formats deleted_item)
            kept ← track txn_id taken
            pure (some kept)
        ]
    ]

  abbrev pub take_visible : ℕ → Dict String → Option String → Method W (Option (Option TupleRecord))
  take_visible fuel template txn_id =
      and_with (scan_all client fuel store.tuple_table)
        λ items. do taken ← take_committed template txn_id items; pure (some taken)

  unfoldable pub take_match :
      ℕ → Dict String → Option String → Method W (Option (Option TupleRecord))
  take_match fuel template none = take_visible fuel template none
  take_match fuel template (some txn_id) =
      and_with (query_by_pk client fuel store.uncommitted_table "txn_id" txn_id) λ uncommitted. do
        own ← lift (first_match formats template uncommitted)
        elim own [
          | none ↦ take_visible fuel template (some txn_id)
          | some r ↦ do taken ← take_own txn_id r; pure (found taken)
        ]

  unfoldable pub find_all_matches :
      ℕ → Dict String → Option String → Method W (Option (List TupleRecord))
  find_all_matches fuel template txn_id = and_with (scan_all client fuel store.tuple_table) λ items.
      do
        committed ← lift (all_matches formats template items)
        and_with (own_items fuel txn_id) λ uncommitted. do
          own ← lift (all_matches formats template uncommitted)
          pure (some (committed ++ own))

  unfoldable pub list_all : ℕ → Method W (Option (List TupleRecord))
  list_all fuel =
      and_with (scan_all client fuel store.tuple_table)
        λ items. do rs ← lift (read_tuples formats items); pure (some rs)
