-- ===== src/Dynamo/SpaceStore/Endings.antt =====
-- The end of a transaction in `DynamoSpaceStore` (djinn/providers/dynamo/src/space_store.rs). Where the
-- code reads an item's `tuple_id` again to delete it, that is the `tuple_id` of the tuple it has read.
use coordin.Common.{
  ℕ, String, Bool, true, false, Option, some, List, [], ◌∷◌, ◌++◌, pure, lift, ◌>>=◌, ◌>>◌,
}
use coordin.Error.{Method}
use coordin.Space.{TupleRecord}
use coordin.Dynamo.{Item, Client, Formats}
use coordin.Dynamo.SpaceStore.{
  DynamoSpaceStore, tuple_from_item, is_own_write, and_with, query_by_pk,
}
use coordin.Dynamo.SpaceStore.Tuples.{txn_key, delete, insert}

abbrev has_any : List Item → Bool
has_any [] = false
has_any (item ∷ items) = true

-- The tuples of `commit_txn`'s or `abort_txn`'s answer.
abbrev pub Outcome : Type 0
Outcome = List TupleRecord × List TupleRecord

module _ {W : Type 0} (client : Client W) (formats : Formats) (store : DynamoSpaceStore) where
  abbrev pub buffered : ℕ → String → String → Method W (Option (List Item))
  buffered fuel table_name txn_id = query_by_pk client fuel table_name "txn_id" txn_id

  unfoldable pub delete_buffered : String → String → TupleRecord → Method W Unit
  delete_buffered table_name txn_id r = do
    deleted ← delete client formats store table_name false (txn_key txn_id r.tuple_id)
    pure tt

  -- The writes of a commit.
  unfoldable pub flush_writes : String → List Item → Method W (List TupleRecord)
  flush_writes txn_id [] = pure []
  flush_writes txn_id (item ∷ items) = do
    r ← lift (tuple_from_item formats item)
    insert client formats store r
    delete_buffered store.uncommitted_table txn_id r
    rest ← flush_writes txn_id items
    pure (r ∷ rest)

  -- The items of a table that are deleted, as the takes of a commit and the writes of an abort.
  unfoldable pub drop_buffered : String → String → List Item → Method W (List TupleRecord)
  drop_buffered table_name txn_id [] = pure []
  drop_buffered table_name txn_id (item ∷ items) = do
    r ← lift (tuple_from_item formats item)
    delete_buffered table_name txn_id r
    rest ← drop_buffered table_name txn_id items
    pure (r ∷ rest)

  unfoldable pub commit_txn : ℕ → String → Method W (Option Outcome)
  commit_txn fuel txn_id = and_with (buffered fuel store.uncommitted_table txn_id) λ uncommitted. do
    flushed ← flush_writes txn_id uncommitted
    and_with (buffered fuel store.txn_taken_table txn_id) λ taken_items. do
      taken ← drop_buffered store.txn_taken_table txn_id taken_items
      pure (some (flushed, taken))

  -- An own write goes with the discarded tuples, any other is restored.
  abbrev pub sorted : Bool → TupleRecord → Outcome → Outcome
  sorted true r (discarded, restored) = (r ∷ discarded, restored)
  sorted false r (discarded, restored) = (discarded, r ∷ restored)

  unfoldable pub restore : Bool → TupleRecord → Method W Unit
  restore true r = pure tt
  restore false r = insert client formats store r

  -- The takes of an abort.
  unfoldable pub restore_takes : String → List Item → Method W Outcome
  restore_takes txn_id [] = pure ([], [])
  restore_takes txn_id (item ∷ items) = do
    r ← lift (tuple_from_item formats item)
    restore (is_own_write item) r
    delete_buffered store.txn_taken_table txn_id r
    rest ← restore_takes txn_id items
    pure (sorted (is_own_write item) r rest)

  unfoldable pub abort_txn : ℕ → String → Method W (Option Outcome)
  abort_txn fuel txn_id = and_with (buffered fuel store.uncommitted_table txn_id) λ uncommitted. do
    discarded ← drop_buffered store.uncommitted_table txn_id uncommitted
    and_with (buffered fuel store.txn_taken_table txn_id) λ taken_items. do
      ended ← restore_takes txn_id taken_items
      pure (some (discarded ++ ended.0, ended.1))

  unfoldable pub has_txn : ℕ → String → Method W (Option Bool)
  has_txn fuel txn_id = and_with (buffered fuel store.uncommitted_table txn_id) λ uncommitted.
      elim (has_any uncommitted) [
        | true ↦ pure (some true)
        | false ↦
            and_with (buffered fuel store.txn_taken_table txn_id)
              λ taken. pure (some (has_any taken))
      ]
