-- ===== src/Dynamo/SpaceEnding.antt =====
-- What the end of a transaction leaves in the DynamoDB tables of the Space
-- (djinn/providers/dynamo/src/space_store.rs).
use coordin.Common.{
  ℕ, ◌<◌, ◌≤◌, String, false, Option, none, some, List, [], ◌∷◌, ◌++◌, Result, ok, err, ◌≡◌, refl,
  ap, ◌∙◌, arith, fun_ext, ◌==◌, if◌then◌else◌, Bool-cases, inl, inr,
}
use coordin.Common.Dict
use coordin.Space.{TupleRecord}
use coordin.Dynamo.{str, Item, SdkError, Client, Formats}
use coordin.Dynamo.Paging.{Pages}
use coordin.Dynamo.Tables.{IsOk}
use coordin.Dynamo.SpaceStore.{DynamoSpaceStore, tuple_to_item, is_own_write, key_page}
use coordin.Dynamo.SpaceStore.Tuples.{read_tuples, insert, txn_key}
use coordin.Dynamo.SpaceStore.Endings.{
  Outcome, sorted, delete_buffered, restore, buffered, flush_writes, drop_buffered, restore_takes,
  commit_txn, abort_txn,
}
use coordin.Dynamo.SpaceReads.{head_and_rest, query_by_pk-rest}

-- What is documented of the tables, where the service takes the calls: `rows` is the table of tuples,
-- `written` and `taken` the items that each buffer has of a transaction, with a number of pages that
-- they do not need more than.
pub record Buffers {W : Type 0} (client : Client W) (store : DynamoSpaceStore) : Type 0 where
  pub rows : W → String → Option Item
  pub written : W → String → List Item × ℕ
  pub taken : W → String → List Item × ℕ
  pub written_pages :
      (id : String) (w : W)
      → (p : Pages (key_page client store.uncommitted_table "txn_id" id) w) × ((p.rest none
            ≡ (written w id).0)
          × (p.left none < (written w id).1))
  pub taken_pages :
      (id : String) (w : W)
      → (p : Pages (key_page client store.txn_taken_table "txn_id" id) w) × ((p.rest none
            ≡ (taken w id).0)
          × (p.left none < (taken w id).1))
  pub put :
      (id : String) (item : Item) (w : W)
      → Dict.get "tuple_id" item ≡ some (str id)
      → let answer =
          client.put_item
            (record { table_name = store.tuple_table; item = item; condition = none })
            w in
        IsOk answer.0
        × (((j : String) → rows answer.1 j ≡ (if id == j then some item else rows w j))
            × (taken answer.1 ≡ taken w))
  pub delete_written :
      (txn_id id : String) (w : W)
      → let answer =
          client.delete_item
            (record {
              return_old = false;
              table_name = store.uncommitted_table;
              key = txn_key txn_id id;
              condition = none;
              attribute_values = [];
            })
            w in
        IsOk answer.0 × ((rows answer.1 ≡ rows w) × (taken answer.1 ≡ taken w))
  pub delete_taken :
      (txn_id id : String) (w : W)
      → let answer =
          client.delete_item
            (record {
              return_old = false;
              table_name = store.txn_taken_table;
              key = txn_key txn_id id;
              condition = none;
              attribute_values = [];
            })
            w in
        IsOk answer.0 × (rows answer.1 ≡ rows w)

IsOk-ok : {A : Type 0} (r : Result SdkError A) → IsOk r → (a : A) × (r ≡ ok a)
IsOk-ok (ok a) h = (a, refl)
IsOk-ok (err e) h = elim h [ ]

module _ (formats : Formats) where
  abbrev pub put_row : TupleRecord → (String → Option Item) → String → Option Item
  put_row r rows j = if r.tuple_id == j then some (tuple_to_item formats r) else rows j

  -- The table once the tuples are put in it, one after the other.
  abbrev pub landed : List TupleRecord → (String → Option Item) → String → Option Item
  landed [] rows = rows
  landed (r ∷ rs) rows = landed rs (put_row r rows)

module _ {W : Type 0} (client : Client W) (formats : Formats) (store : DynamoSpaceStore)
    (b : Buffers client store) where
  -- The own writes among the items of the takes, and the others.
  abbrev pub split : List Item → List TupleRecord → Outcome
  split (item ∷ items) (r ∷ rs) = sorted client formats store (is_own_write item) r (split items rs)
  split [] rs = ([], [])
  split (item ∷ items) [] = ([], [])

  insert-put_row :
      (r : TupleRecord) (w : W)
      → let answer = insert client formats store r w in
        (answer.0 ≡ ok tt)
        × ((b.rows answer.1 ≡ put_row formats r (b.rows w)) × (b.taken answer.1 ≡ b.taken w))
  unfolding insert tuple_to_item Dict.get
  insert-put_row r w =
      let (done, (rows, taken)) = b.put r.tuple_id (tuple_to_item formats r) w refl in
      (rw (IsOk-ok _ done).1 refl, (fun_ext rows, taken))

  delete_written_lem :
      (txn_id : String) (r : TupleRecord) (w : W)
      → let answer = delete_buffered client formats store store.uncommitted_table txn_id r w in
        (answer.0 ≡ ok tt) × ((b.rows answer.1 ≡ b.rows w) × (b.taken answer.1 ≡ b.taken w))
  unfolding delete_buffered
  delete_written_lem txn_id r w =
      let (done, (rows, taken)) = b.delete_written txn_id r.tuple_id w in
      rw (IsOk-ok _ done).1 (refl, (rows, taken))

  delete_taken_lem :
      (txn_id : String) (r : TupleRecord) (w : W)
      → let answer = delete_buffered client formats store store.txn_taken_table txn_id r w in
        (answer.0 ≡ ok tt) × (b.rows answer.1 ≡ b.rows w)
  unfolding delete_buffered
  delete_taken_lem txn_id r w =
      let (done, rows) = b.delete_taken txn_id r.tuple_id w in rw (IsOk-ok _ done).1 (refl, rows)

  flush_exact :
      (txn_id : String) (items : List Item) (rs : List TupleRecord) (w : W)
      → read_tuples formats items ≡ ok rs
      → let answer = flush_writes client formats store txn_id items w in
        (answer.0 ≡ ok rs)
        × ((b.rows answer.1 ≡ landed formats rs (b.rows w)) × (b.taken answer.1 ≡ b.taken w))
  unfolding flush_writes read_tuples
  flush_exact txn_id [] rs w h = let e : [] ≡ rs = cc in rw (← e) (refl, (refl, refl))
  flush_exact txn_id (item ∷ items) rs w h =
      let (r, (read, (rest, (more, joined)))) = head_and_rest formats item items rs h in
      let w1 = (insert client formats store r w).1 in
      let (put, (put_rows, put_taken)) = insert-put_row r w in
      let w2 = (delete_buffered client formats store store.uncommitted_table txn_id r w1).1 in
      let (gone, (gone_rows, gone_taken)) = delete_written_lem txn_id r w1 in
      let (all, (rows, taken)) = flush_exact txn_id items rest w2 more in
      rw (← joined, read, put, gone, all)
        (
          refl,
          (rows ∙ ap (landed formats rest) (gone_rows ∙ put_rows), taken ∙ gone_taken ∙ put_taken),
        )

  drop_written :
      (txn_id : String) (items : List Item) (rs : List TupleRecord) (w : W)
      → read_tuples formats items ≡ ok rs
      → let answer = drop_buffered client formats store store.uncommitted_table txn_id items w in
        (answer.0 ≡ ok rs) × ((b.rows answer.1 ≡ b.rows w) × (b.taken answer.1 ≡ b.taken w))
  unfolding drop_buffered read_tuples
  drop_written txn_id [] rs w h = let e : [] ≡ rs = cc in rw (← e) (refl, (refl, refl))
  drop_written txn_id (item ∷ items) rs w h =
      let (r, (read, (rest, (more, joined)))) = head_and_rest formats item items rs h in
      let w1 = (delete_buffered client formats store store.uncommitted_table txn_id r w).1 in
      let (gone, (gone_rows, gone_taken)) = delete_written_lem txn_id r w in
      let (all, (rows, taken)) = drop_written txn_id items rest w1 more in
      rw (← joined, read, gone, all) (refl, (rows ∙ gone_rows, taken ∙ gone_taken))

  drop_taken :
      (txn_id : String) (items : List Item) (rs : List TupleRecord) (w : W)
      → read_tuples formats items ≡ ok rs
      → let answer = drop_buffered client formats store store.txn_taken_table txn_id items w in
        (answer.0 ≡ ok rs) × (b.rows answer.1 ≡ b.rows w)
  unfolding drop_buffered read_tuples
  drop_taken txn_id [] rs w h = let e : [] ≡ rs = cc in rw (← e) (refl, refl)
  drop_taken txn_id (item ∷ items) rs w h =
      let (r, (read, (rest, (more, joined)))) = head_and_rest formats item items rs h in
      let w1 = (delete_buffered client formats store store.txn_taken_table txn_id r w).1 in
      let (gone, gone_rows) = delete_taken_lem txn_id r w in
      let (all, rows) = drop_taken txn_id items rest w1 more in
      rw (← joined, read, gone, all) (refl, rows ∙ gone_rows)

  restore_exact :
      (txn_id : String) (items : List Item) (rs : List TupleRecord) (w : W)
      → read_tuples formats items ≡ ok rs
      → let answer = restore_takes client formats store txn_id items w in
        (answer.0 ≡ ok (split items rs))
        × (b.rows answer.1 ≡ landed formats (split items rs).1 (b.rows w))
  unfolding restore_takes restore read_tuples
  restore_exact txn_id [] rs w h = (refl, refl)
  restore_exact txn_id (item ∷ items) rs w h =
      let (r, (read, (rest, (more, joined)))) = head_and_rest formats item items rs h in
      elim (Bool-cases (is_own_write item)) [
        | inl e ↦
            let w1 = (delete_buffered client formats store store.txn_taken_table txn_id r w).1 in
            let (gone, gone_rows) = delete_taken_lem txn_id r w in
            let (all, rows) = restore_exact txn_id items rest w1 more in
            rw (← joined, read, e, gone, all)
              (refl, rows ∙ ap (landed formats (split items rest).1) gone_rows)
        | inr e ↦
            let w1 = (insert client formats store r w).1 in
            let (put, (put_rows, put_taken)) = insert-put_row r w in
            let w2 = (delete_buffered client formats store store.txn_taken_table txn_id r w1).1 in
            let (gone, gone_rows) = delete_taken_lem txn_id r w1 in
            let (all, rows) = restore_exact txn_id items rest w2 more in
            rw (← joined, read, e, put, gone, all)
              (refl, rows ∙ ap (landed formats (split items rest).1) (gone_rows ∙ put_rows))
      ]

  module _ (fuel : ℕ) (txn_id : String) where
    buffered_written :
        (w : W)
        → (b.written w txn_id).1 ≤ fuel
        → buffered client formats store fuel store.uncommitted_table txn_id w
          ≡ (ok (some (b.written w txn_id).0), w)
    buffered_written w enough =
        let (p, (rest, left)) = b.written_pages txn_id w in
        query_by_pk-rest client formats store fuel w store.uncommitted_table txn_id p (omega arith)
        ∙ ap (λ items. (ok (some items), w)) rest

    buffered_taken :
        (w : W)
        → (b.taken w txn_id).1 ≤ fuel
        → buffered client formats store fuel store.txn_taken_table txn_id w
          ≡ (ok (some (b.taken w txn_id).0), w)
    buffered_taken w enough =
        let (p, (rest, left)) = b.taken_pages txn_id w in
        query_by_pk-rest client formats store fuel w store.txn_taken_table txn_id p (omega arith)
        ∙ ap (λ items. (ok (some items), w)) rest

    module _ (w : W) (writes takes : List TupleRecord)
        (read_writes : read_tuples formats (b.written w txn_id).0 ≡ ok writes)
        (read_takes : read_tuples formats (b.taken w txn_id).0 ≡ ok takes)
        (enough : (b.written w txn_id).1 ≤ fuel) (enough_taken : (b.taken w txn_id).1 ≤ fuel) where
      commit_exact :
          let answer = commit_txn client formats store fuel txn_id w in
          (answer.0 ≡ ok (some (writes, takes)))
          × (b.rows answer.1 ≡ landed formats writes (b.rows w))
      unfolding commit_txn
      commit_exact =
          let items = (b.written w txn_id).0 in
          let w1 = (flush_writes client formats store txn_id items w).1 in
          let (flushed, (rows, taken)) = flush_exact txn_id items writes w read_writes in
          let same : b.taken w1 txn_id ≡ b.taken w txn_id = ap (λ f. f txn_id) taken in
          let (dropped, dropped_rows) =
            drop_taken txn_id (b.taken w1 txn_id).0 takes w1 (rw same read_takes) in
          rw (buffered_written w enough, flushed, buffered_taken w1 (rw same enough_taken), dropped)
            (refl, dropped_rows ∙ rows)

      abort_exact :
          let answer = abort_txn client formats store fuel txn_id w in
          let ended = split (b.taken w txn_id).0 takes in
          (answer.0 ≡ ok (some (writes ++ ended.0, ended.1)))
          × (b.rows answer.1 ≡ landed formats ended.1 (b.rows w))
      unfolding abort_txn
      abort_exact =
          let items = (b.written w txn_id).0 in
          let w1 = (drop_buffered client formats store store.uncommitted_table txn_id items w).1 in
          let (dropped, (rows, taken)) = drop_written txn_id items writes w read_writes in
          let same : b.taken w1 txn_id ≡ b.taken w txn_id = ap (λ f. f txn_id) taken in
          let (restored, restored_rows) =
            restore_exact txn_id (b.taken w1 txn_id).0 takes w1 (rw same read_takes) in
          let halves : split (b.taken w1 txn_id).0 takes ≡ split (b.taken w txn_id).0 takes =
            ap (λ buffer. split buffer.0 takes) same in
          rw
            (buffered_written w enough, dropped, buffered_taken w1 (rw same enough_taken), restored)
            (
              ap (λ (ended : Outcome). ok (some (writes ++ ended.0, ended.1))) halves,
              restored_rows
                  ∙ ap (λ (ended : Outcome). landed formats ended.1 (b.rows w1)) halves
                  ∙ ap (landed formats (split (b.taken w txn_id).0 takes).1) rows,
            )

      -- Where the service takes the calls, the items that the buffers have of a transaction are read as
      -- the tuples `writes` and `takes`, and the loops may read as many pages as the buffers have:
      -- a commit answers with both lists, and puts the tuples of `writes` in the table of tuples and
      -- changes nothing else there; an abort answers with the tuples of `writes` and the takes that are
      -- own writes as discarded, and with the other takes as restored, and puts exactly the restored
      -- ones back.
      pub ends_exact :
          let commit = commit_txn client formats store fuel txn_id w in
          let abort = abort_txn client formats store fuel txn_id w in
          let ended = split (b.taken w txn_id).0 takes in
          ((commit.0 ≡ ok (some (writes, takes)))
            × (b.rows commit.1 ≡ landed formats writes (b.rows w)))
          × ((abort.0 ≡ ok (some (writes ++ ended.0, ended.1)))
              × (b.rows abort.1 ≡ landed formats ended.1 (b.rows w)))
      ends_exact = (commit_exact, abort_exact)
