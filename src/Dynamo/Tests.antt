-- ===== src/Dynamo/Tests.antt =====
-- The DynamoDB stores on a table in memory, and the theorems at concrete inputs.
use coordin.Common.{
  ℕ, ◌+◌, String, Bool, true, Option, none, some, List, [], ◌∷◌, ◌≡◌, refl, arith, ◌↔◌, Bool-cases,
  inl, inr, if◌then◌else◌, ◌==◌, All,
}
use coordin.Common.Dict
use coordin.Common.Dict.{Dict, get-insert, get-remove}
use coordin.Lease.{Chrono, LeaseRecord, checked_expiry}
use coordin.Lease.Store.{expiry_for}
use coordin.Dynamo.{str, Item, Client}
use coordin.Dynamo.Tables.{Table}
use coordin.Dynamo.LeaseStore.{expired_filter, expired_scan, item_of, DynamoLeaseStore}
use coordin.Dynamo.LeaseCalls.{
  LeaseExpressions, Same, Call, create, get, renew, cancel, remove_if_unchanged, local, remote,
  answers, InRange,
}
use coordin.Common.{In, here, there}
use coordin.Common.Dict.{get-In, In-get, IsDict}
use coordin.Lease.Store.{InMemoryLeaseStore}
use coordin.Dynamo.Paging.{Pages}
use coordin.Dynamo.LeaseExpiry.{Filtered}
use coordin.Dynamo.LeaseRefinement.{answers-Refines}
use coordin.Dynamo.TestTable
use coordin.Dynamo.TestTable.{
  World, formats, formats_read, put_or, get-put_or, same_text, text_equals,
}

abbrev set_expression : String
set_expression = "SET expires_at = :ea, ttl_seconds = :ts, #ttl_field = :ttl, expires_epoch = :ee"

holds : String → Dict String → Item → Item → Bool
holds condition names values row =
    if condition == expired_filter
    then true
    else if condition == "attribute_exists(lease_id)"
    then Dict.contains_key "lease_id" row
    else same_text (Dict.get "expires_at" row) (Dict.get ":listed" values)

updated : String → Dict String → Item → Item → Item
updated update names values row =
    if update == set_expression
    then put_or "expires_at" (Dict.get ":ea" values) (
        put_or "ttl_seconds" (Dict.get ":ts" values) (
          put_or "ttl" (Dict.get ":ttl" values)
            (put_or "expires_epoch" (Dict.get ":ee" values) row)))
    else put_or "expires_at" (Dict.get ":ea" values) (
        put_or "ttl_seconds" (Dict.get ":ts" values)
          (put_or "ttl" none (put_or "expires_epoch" none row)))

abbrev client : Client World
client = TestTable.client "lease_id" holds updated

abbrev store : DynamoLeaseStore
store = record { table_name = "coordin8_leases"; scan_page_limit = none }

abbrev leases_table : Table client store.table_name "lease_id"
leases_table = TestTable.table "lease_id" holds updated store.table_name

holds_exists :
    (names : Dict String) (values row : Item)
    → holds "attribute_exists(lease_id)" names values row ≡ Dict.contains_key "lease_id" row
unfolding holds
holds_exists names values row = refl

holds_equals :
    (text : String) (values row : Item)
    → Dict.get ":listed" values ≡ some (str text)
    → (holds "expires_at = :listed" [] values row ≡ true)
      ↔ (Dict.get "expires_at" row ≡ some (str text))
unfolding holds
holds_equals text values row e = rw e (text_equals (Dict.get "expires_at" row) text)

updated_set :
    (values row : Item) (k : String)
    → Dict.get k (updated set_expression (("#ttl_field", "ttl") ∷ []) values row) ≡ (
        if "expires_at" == k
        then Dict.get ":ea" values
        else if "ttl_seconds" == k
        then Dict.get ":ts" values
        else if "ttl" == k
        then Dict.get ":ttl" values
        else if "expires_epoch" == k
        then Dict.get ":ee" values
        else Dict.get k row)
unfolding updated
updated_set values row k = simp get-put_or

updated_set_and_remove :
    (values row : Item) (k : String)
    → Dict.get k (
        updated "SET expires_at = :ea, ttl_seconds = :ts REMOVE #ttl_field, expires_epoch"
          (("#ttl_field", "ttl") ∷ [])
          values
          row)
      ≡ (if "expires_at" == k
          then Dict.get ":ea" values
          else if "ttl_seconds" == k
          then Dict.get ":ts" values
          else if "ttl" == k
          then none
          else if "expires_epoch" == k
          then none
          else Dict.get k row)
unfolding updated
updated_set_and_remove values row k = simp get-put_or

abbrev expressions : LeaseExpressions leases_table
expressions = record {
  exists = holds_exists;
  equals = holds_equals;
  set = updated_set;
  set_and_remove = updated_set_and_remove;
}

abbrev chrono : Chrono
chrono = record {
  try_seconds = λ n. some n;
  checked_add_signed = λ a b. some (a + b);
  max_utc = 1000;
}

abbrev calls : List Call
calls =
    create 5 "l1" "printer" 30
    ∷ renew 9 "l1" 60
    ∷ remove_if_unchanged (record {
      lease_id = "l1";
      resource_id = "printer";
      granted_at = 5;
      expires_at = 35;
      ttl_seconds = 30;
    })
    ∷ get "l1"
    ∷ cancel "l1"
    ∷ renew 12 "l1" 60
    ∷ []

calls-InRange : All (InRange chrono) calls
unfolding expiry_for checked_expiry
calls-InRange =
    (omega arith, ((omega arith, (69, refl)), (tt, (tt, (tt, ((omega arith, (72, refl)), tt))))))

answers-Refines_example :
    ((answers (remote client chrono formats store) calls []).0
      ≡ (answers (local chrono) calls []).0)
    × Same formats leases_table.rows
        (answers (remote client chrono formats store) calls []).1
        (answers (local chrono) calls []).1
unfolding Dict.get
answers-Refines_example =
    answers-Refines client chrono formats store leases_table expressions formats_read calls [] []
      calls-InRange (tt, (tt, (tt, (tt, (tt, (tt, tt)))))) (λ k. tt)

abbrev lease_of : String → ℕ → LeaseRecord
lease_of id expires_at = record {
  lease_id = id;
  resource_id = "printer";
  granted_at = 5;
  expires_at = expires_at;
  ttl_seconds = 30;
}

abbrev two_leases : InMemoryLeaseStore
two_leases = ("l1", lease_of "l1" 35) ∷ ("l2", lease_of "l2" 90) ∷ []

abbrev two_rows : World
two_rows =
    ("l1", item_of formats (lease_of "l1" 35)) ∷ ("l2", item_of formats (lease_of "l2" 90)) ∷ []

abbrev two_pages : Pages (expired_scan client chrono formats store 40) two_rows
two_pages = record {
  page = λ key. record { items = some (Dict.values two_rows); last_evaluated_key = none };
  rest = λ key. Dict.values two_rows;
  left = λ key. 0;
  answers = λ key. refl;
  last = λ key e. refl;
  next = λ key from e. cc;
  falls = λ key from e. cc;
}

two_sound :
    (item : Item)
    → In item (Dict.values two_rows)
    → (k : String) × (Dict.get k two_rows ≡ some item)
unfolding Dict.get
two_sound item (here e) = ("l1", rw e refl)
two_sound item (there (here e)) = ("l2", rw e refl)
two_sound item (there (there m)) = elim m [ ]

two_complete :
    (k : String) (item : Item) → Dict.get k two_rows ≡ some item → In item (Dict.values two_rows)
unfolding Dict.get
two_complete k item h = elim (Bool-cases ("l1" == k)) [
  | inl e ↦
      let same : some (item_of formats (lease_of "l1" 35)) ≡ some item = rw e at h in here (cc)
  | inr e ↦ elim (Bool-cases ("l2" == k)) [
    | inl f ↦
        let same : some (item_of formats (lease_of "l2" 90)) ≡ some item = rw (e, f) at h in
        there (here (cc))
    | inr f ↦ let same : ◌≡◌ {A = Option Item} none (some item) = rw (e, f) at h in cc
  ]
]

holds_filter :
    (names : Dict String) (values row : Item) → holds expired_filter names values row ≡ true
unfolding holds
holds_filter names values row = refl

abbrev two_filtered : Filtered leases_table two_rows (formats.timestamp 40) (Dict.values two_rows)
two_filtered = record {
  sound = two_sound;
  complete = λ k item e h. two_complete k item e;
  passes = λ item n e h. holds_filter _ _ _;
}
