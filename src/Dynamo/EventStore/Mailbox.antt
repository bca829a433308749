-- ===== src/Dynamo/EventStore/Mailbox.antt =====
-- The methods of `DynamoEventStore` (djinn/providers/dynamo/src/event_store.rs).
use Prim.Native.String.{◌++◌}
use coordin.Common.{
  false, ℕ, zero, suc, ◌-◌, String, true, Option, none, some, List, [], ◌∷◌, ◌++◌ as append, Result,
  ok, err, lift, pure, raise, ◌>>=◌, ◌>>◌, if◌then◌else◌, length, take, map, ltb, min,
}
use coordin.Common.Dict
use coordin.Common.Dict.{Dict}
use coordin.Common.Text.{show_u64}
use coordin.Error.{Error, Method, storage, subscription_not_found}
use coordin.Event.{EventRecord, SubscriptionRecord}
use coordin.Dynamo.{str, num, Item, SdkError, Client, Formats, Page, send, or_failed}
use coordin.Dynamo.Creation.{
  init as init_with, ensure_event_sub_table, ensure_event_mailbox_table, lease_gsi, event_sub_table,
  event_mailbox_table,
}
use coordin.Dynamo.Items.{as_n, parse_u64}
use coordin.Dynamo.Paging.{pages, or_empty, first, push_all, onward}
use coordin.Dynamo.EventStore.{
  DynamoEventStore, sub_to_item, sub_from_item, event_from_item, event_to_item, push_sub,
  read_found,
}

abbrev pub new : DynamoEventStore
new = record { sub_table = event_sub_table; mailbox_table = event_mailbox_table }

abbrev pub batch_delete_max_attempts : ℕ
batch_delete_max_attempts = 6

abbrev last_chunk : {A : Type 0} → List A → List (List A)
last_chunk [] = []
last_chunk (x ∷ xs) = (x ∷ xs) ∷ []

-- `keys.chunks(size)`, where the current chunk has so much room left.
unfoldable pub chunks_from : {A : Type 0} → ℕ → ℕ → List A → List A → List (List A)
chunks_from size room chunk [] = last_chunk chunk
chunks_from size zero chunk (x ∷ xs) = chunk ∷ chunks_from size (size - 1) (x ∷ []) xs
chunks_from size (suc room) chunk (x ∷ xs) = chunks_from size room (append chunk (x ∷ [])) xs

unfoldable pub chunks : {A : Type 0} → ℕ → List A → List (List A)
unfolding chunks_from
chunks size xs = chunks_from size size [] xs

unfoldable pub mailbox_key : String → String → Item
mailbox_key registration_id seq_num =
    ("registration_id", str registration_id) ∷ ("seq_num", num seq_num) ∷ []

abbrev pub keys_of : String → List Item → List Item
keys_of registration_id [] = []
keys_of registration_id (item ∷ items) = elim (as_n (Dict.get "seq_num" item)) [
  | none ↦ keys_of registration_id items
  | some seq ↦ mailbox_key registration_id seq ∷ keys_of registration_id items
]

-- What is left of a table after a batch.
abbrev pub left_of : String → Option (Dict (List Item)) → List Item
left_of table none = []
left_of table (some m) = or_empty (Dict.get table m)

-- The number that `enqueue` was given.
abbrev pub next_seq : Option Item → Result Error ℕ
next_seq none = err (storage "update_item returned no mailbox_seq")
next_seq (some attributes) = elim (as_n (Dict.get "mailbox_seq" attributes)) [
  | none ↦ err (storage "update_item returned no mailbox_seq")
  | some t ↦ elim (parse_u64 t) [
    | ok seq ↦ ok seq
    | err e ↦ err (storage "update_item returned no mailbox_seq")
  ]
]

abbrev pub seq_answer : String → Result SdkError (Option Item) → Result Error (Option Item)
seq_answer registration_id (ok attributes) = ok attributes
seq_answer registration_id (err e) =
    or_failed "update_item (mailbox_seq)" (err (subscription_not_found registration_id)) e

abbrev pub i32_max : ℕ
i32_max = 2147483647

module _ {W : Type 0} (client : Client W) (formats : Formats) (store : DynamoEventStore) where
  unfoldable pub init : Option String → Method W Unit
  init auto_create = init_with auto_create (do
    ensure_event_sub_table client store.sub_table
    ensure_event_mailbox_table client store.mailbox_table)

  -- The attempts on one chunk, of which so many are left, after so many.
  unfoldable pub flush : ℕ → ℕ → List Item → Method W Unit
  flush left attempt [] = pure tt
  flush zero attempt (key ∷ pending) = raise (
      storage (
        "batch_write_item: "
        ++ show_u64 (length (key ∷ pending))
        ++ " mailbox deletes still unprocessed after "
        ++ show_u64 attempt
        ++ " attempts"))
  flush (suc left) attempt (key ∷ pending) = do
    unprocessed ←
        send "batch_write_item" (client.batch_write_item store.mailbox_table (key ∷ pending))
    flush left (suc attempt) (left_of store.mailbox_table unprocessed)

  unfoldable pub flush_chunks : List (List Item) → Method W Unit
  flush_chunks [] = pure tt
  flush_chunks (chunk ∷ rest) = do flush batch_delete_max_attempts 0 chunk; flush_chunks rest

  unfoldable pub batch_delete : List Item → Method W Unit
  batch_delete keys = flush_chunks (chunks 25 keys)

  abbrev pub mailbox_query : String → Option Item → Method W Page
  mailbox_query registration_id last_key = send "query" (
      client.query (record {
        table_name = store.mailbox_table;
        index_name = none;
        key_condition = "registration_id = :rid";
        attribute_values = (":rid", str registration_id) ∷ [];
        limit = none;
        scan_index_forward = none;
        exclusive_start_key = last_key;
      }))

  abbrev pub drained : (Option Item → Method W (Option Unit)) → Option Item → Method W (Option Unit)
  drained round none = pure (some tt)
  drained round (some key) = round (some key)

  -- With at most so many pages, as in the loops below; `none` means that they did not suffice.
  unfoldable pub drain_mailbox : ℕ → String → Option Item → Method W (Option Unit)
  drain_mailbox zero registration_id last_key = pure none
  drain_mailbox (suc fuel) registration_id last_key = do
    page ← mailbox_query registration_id last_key
    batch_delete (keys_of registration_id (or_empty page.items))
    drained (drain_mailbox fuel registration_id) page.last_evaluated_key

  unfoldable pub create_subscription : SubscriptionRecord → Method W Unit
  create_subscription sub = send "put_item" (
      client.put_item
        (record { table_name = store.sub_table; item = sub_to_item sub; condition = none }))

  unfoldable pub get_subscription : String → Method W (Option SubscriptionRecord)
  get_subscription registration_id = do
    item ← send "get_item" (
        client.get_item (record {
          table_name = store.sub_table;
          key = ("registration_id", str registration_id) ∷ [];
        }))
    lift (read_found item)

  abbrev delete_sub : String → Method W (Option Item)
  delete_sub registration_id = send "delete_item" (
      client.delete_item (record {
        return_old = false;
        table_name = store.sub_table;
        key = ("registration_id", str registration_id) ∷ [];
        condition = none;
        attribute_values = [];
      }))

  unfoldable pub remove_subscription : ℕ → String → Method W (Option Unit)
  remove_subscription fuel registration_id = do
    deleted ← delete_sub registration_id
    drain_mailbox fuel registration_id none

  abbrev and_drained : SubscriptionRecord → Option (Unit {0}) → Option (Option SubscriptionRecord)
  and_drained sub none = none
  and_drained sub (some done) = some (some sub)

  abbrev remove_found : ℕ → Option Item → Method W (Option (Option SubscriptionRecord))
  remove_found fuel none = pure (some none)
  remove_found fuel (some item) = do
    sub ← lift (sub_from_item item)
    deleted ← delete_sub sub.registration_id
    done ← drain_mailbox fuel sub.registration_id none
    pure (and_drained sub done)

  unfoldable pub remove_by_lease : ℕ → String → Method W (Option (Option SubscriptionRecord))
  remove_by_lease fuel lease_id = do
    page ← send "query (lease GSI)" (
        client.query (record {
          table_name = store.sub_table;
          index_name = some lease_gsi;
          key_condition = "lease_id = :lid";
          attribute_values = (":lid", str lease_id) ∷ [];
          limit = some 1;
          scan_index_forward = none;
          exclusive_start_key = none;
        }))
    remove_found fuel (first (or_empty page.items))

  abbrev all_scan : Option Item → Method W Page
  all_scan last_key = send "scan" (
      client.scan (record {
        table_name = store.sub_table;
        filter = none;
        attribute_names = [];
        attribute_values = [];
        limit = none;
        exclusive_start_key = last_key;
      }))

  unfoldable pub list_subscriptions : ℕ → Method W (Option (List SubscriptionRecord))
  list_subscriptions fuel = pages all_scan push_sub fuel none []

  unfoldable pub enqueue : String → EventRecord → Method W ℕ
  enqueue registration_id event = do
    attributes ← (λ w.
        let answer =
          client.update_item
            (record {
              return_new = true;
              table_name = store.sub_table;
              key = ("registration_id", str registration_id) ∷ [];
              update = "ADD mailbox_seq :one";
              attribute_names = [];
              attribute_values = (":one", num "1") ∷ [];
              condition = some "attribute_exists(registration_id)";
            })
            w in
        (seq_answer registration_id answer.0, answer.1))
    seq ← lift (next_seq attributes)
    send ("put_item (mailbox seq " ++ show_u64 seq ++ ")") (
        client.put_item (record {
          table_name = store.mailbox_table;
          item = event_to_item formats registration_id seq event;
          condition = some "attribute_not_exists(seq_num)";
        }))
    pure seq

  abbrev push_event : Item → List EventRecord → Result Error (List EventRecord)
  push_event item events = elim (event_from_item formats item) [
    | err e ↦ err e
    | ok event ↦ ok (append events (event ∷ []))
  ]

  abbrev pub peek_query : String → ℕ → ℕ → Option Item → Method W Page
  peek_query registration_id after_seq remaining last_key = send "query" (
      client.query (record {
        table_name = store.mailbox_table;
        index_name = none;
        key_condition = "registration_id = :rid AND seq_num > :after";
        attribute_values =
            (":rid", str registration_id) ∷ (":after", num (show_u64 after_seq)) ∷ [];
        limit = some remaining;
        scan_index_forward = some true;
        exclusive_start_key = last_key;
      }))

  unfoldable pub peek_pages :
      ℕ → String → ℕ → ℕ → Option Item → List EventRecord → Method W (Option (List EventRecord))
  peek_pages zero registration_id after_seq limit last_key events = pure none
  peek_pages (suc fuel) registration_id after_seq limit last_key events =
      let round = (do
        page ← peek_query registration_id after_seq (min (limit - length events) i32_max) last_key
        events ← lift (push_all push_event (or_empty page.items) events)
        onward (peek_pages fuel registration_id after_seq limit) page.last_evaluated_key events) in
      if ltb (length events) limit then round else pure (some events)

  abbrev truncate : ℕ → Option (List EventRecord) → Option (List EventRecord)
  truncate limit none = none
  truncate limit (some events) = some (take limit events)

  unfoldable pub peek : ℕ → String → ℕ → ℕ → Method W (Option (List EventRecord))
  peek fuel registration_id after_seq limit = do
    events ← peek_pages fuel registration_id after_seq limit none []
    pure (truncate limit events)

  unfoldable pub ack : String → List ℕ → Method W Unit
  ack registration_id seq_nums =
      batch_delete (map (λ seq. mailbox_key registration_id (show_u64 seq)) seq_nums)
