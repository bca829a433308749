-- ===== src/Dynamo/SpaceReads.antt =====
-- What the reads of the DynamoDB store of tuples find (djinn/providers/dynamo/src/space_store.rs),
-- beside the store in memory (djinn/providers/local/src/space_store.rs).
use coordin.Common.{
  ℕ, ◌<◌, String, Option, none, some, List, [], ◌∷◌, ◌++◌, append_assoc, append-nil, Result, ok,
  err, ◌≡◌, refl, sym, ap, ◌∙◌, and_then-ok,
}
use coordin.Common.Dict
use coordin.Common.Dict.{Dict}
use coordin.Error.{Error}
use coordin.Space.{TupleRecord}
use coordin.Space.Store.{InMemorySpaceStore, own_writes}
use coordin.Space.Store
use coordin.Dynamo.{Item, Client, Formats}
use coordin.Dynamo.Paging.{Pages, push_all, pages_all}
use coordin.Dynamo.SpaceStore.{
  DynamoSpaceStore, tuple_from_item, push_item, scan_page, key_page, scan_all, query_by_pk,
}
use coordin.Dynamo.SpaceStore.Tuples.{read_tuples}
use coordin.Dynamo.SpaceStore.Tuples

push_all-push_item : (items out : List Item) → push_all push_item items out ≡ ok (out ++ items)
unfolding push_all
push_all-push_item [] out = ap (λ l. ok l) (sym (append-nil out))
push_all-push_item (item ∷ items) out =
    push_all-push_item items (out ++ item ∷ [])
    ∙ ap (λ l. ok l) (append_assoc out (item ∷ []) items)

-- The tuple and the tuples that a list of items is read as.
abbrev pub Read : Formats → Item → List Item → List TupleRecord → Type 0
Read formats item items rs =
    (r : TupleRecord) × ((tuple_from_item formats item ≡ ok r)
      × ((rest : List TupleRecord) × ((read_tuples formats items ≡ ok rest) × (r ∷ rest ≡ rs))))

pub head_and_rest :
    (formats : Formats) (item : Item) (items : List Item) (rs : List TupleRecord)
    → read_tuples formats (item ∷ items) ≡ ok rs
    → Read formats item items rs
unfolding read_tuples
head_and_rest formats item items rs h =
    let (r, (read, h2)) = and_then-ok (tuple_from_item formats item) _ h in
    let (rest, (more, h3)) = and_then-ok (read_tuples formats items) _ h2 in
    (r, (read, (rest, (more, (cc)))))

-- A world whose tables hold what a store in memory does: in the order of their pages, their items are
-- read as the tuples that the store iterates over.
pub record Represents {W : Type 0} (client : Client W) (formats : Formats)
    (store : DynamoSpaceStore) (w : W) (s : InMemorySpaceStore) : Type 0 where
  pub visible : Pages (scan_page client store.tuple_table) w
  pub written : (id : String) → Pages (key_page client store.uncommitted_table "txn_id" id) w
  pub visible_tuples : read_tuples formats (visible.rest none) ≡ ok (Dict.values s.tuples)
  pub written_tuples :
      (id : String) → read_tuples formats ((written id).rest none) ≡ ok (own_writes (some id) s)

-- An answer for which the pages sufficed.
abbrev pub answered : {A : Type 0} → Result Error A → Result Error (Option A)
answered (ok a) = ok (some a)
answered (err e) = err e

module _ {W : Type 0} (client : Client W) (formats : Formats) (store : DynamoSpaceStore) (fuel : ℕ)
    (w : W) where
  pub scan_all-rest :
      (table_name : String) (p : Pages (scan_page client table_name) w)
      → p.left none < fuel
      → scan_all client fuel table_name w ≡ (ok (some (p.rest none)), w)
  unfolding scan_all
  scan_all-rest table_name p h =
      pages_all _ push_item fuel none [] w p h ∙ rw push_all-push_item refl

  pub query_by_pk-rest :
      (table_name id : String) (p : Pages (key_page client table_name "txn_id" id) w)
      → p.left none < fuel
      → query_by_pk client fuel table_name "txn_id" id w ≡ (ok (some (p.rest none)), w)
  unfolding query_by_pk
  query_by_pk-rest table_name id p h =
      pages_all _ push_item fuel none [] w p h ∙ rw push_all-push_item refl
