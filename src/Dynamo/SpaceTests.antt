-- ===== src/Dynamo/SpaceTests.antt =====
-- Tuples on tables in memory, and the theorems at concrete inputs.
use coordin.Common.{
  List, String, Bool, true, false, Option, none, some, [], ◌∷◌, ok, err, filter, all, ◌≡◌, refl,
  sym, ap, subst, ◌<◌, arith, if◌then◌else◌, ◌==◌, Bool-cases, inl, inr,
}
use coordin.Common.Dict
use coordin.Common.Dict.{Dict, get-insert}
use coordin.Space.{TupleRecord}
use coordin.Space.Store.{InMemorySpaceStore, empty, own_writes}
use coordin.Space.Store
use coordin.Dynamo.{str, Item, Client}
use coordin.Common.Text
use coordin.Registry.Matcher
use coordin.Dynamo.Paging
use coordin.Dynamo.Items
use coordin.Dynamo.TestTable
use coordin.Dynamo.Paging.{Pages}
use coordin.Dynamo.TestTable.{formats, formats_read, key_in, id_of, refusal, same_text}
use coordin.Dynamo.Items.{read_texts-text_map}
use coordin.Dynamo.SpaceStore.{
  key_page, new, own_item, is_own_write, tuple_to_item, tuple_from_item, txn_item, scan_all,
  query_by_pk,
}
use coordin.Dynamo.SpaceStore.Tuples.{read_tuples, take_match, insert, take_committed, first_match}
use coordin.Dynamo.SpaceStore.Endings.{
  abort_txn, commit_txn, restore_takes, restore, delete_buffered, drop_buffered, flush_writes,
}
use coordin.Dynamo.SpaceEnding.{Buffers, landed, ends_exact}
use coordin.Dynamo.SpaceReads.{Represents}

-- The three tables of tuples, by `tuple_id`.
record World : Type 0 where
  tuples : Dict Item
  uncommitted : Dict Item
  taken : Dict Item

abbrev table_of : String → World → Dict Item
table_of name w =
    if name == new.tuple_table
    then w.tuples
    else if name == new.uncommitted_table
    then w.uncommitted
    else w.taken

abbrev with_table : String → Dict Item → World → World
with_table name m w =
    if name == new.tuple_table
    then record w { tuples = m }
    else if name == new.uncommitted_table
    then record w { uncommitted = m }
    else record w { taken = m }

abbrev is_there : Option Item → Bool
is_there none = false
is_there (some item) = true

abbrev in_txn : Item → Item → Bool
in_txn values item = same_text (Dict.get "txn_id" item) (Dict.get ":pk" values)

abbrev client : Client World
client = record {
  put_item = λ q w.
      let t = table_of q.table_name w in
      (ok tt, with_table q.table_name (Dict.insert (key_in "tuple_id" q.item) q.item t) w);
  get_item = λ q w. (ok (Dict.get (key_in "tuple_id" q.key) (table_of q.table_name w)), w);
  delete_item = λ q w.
      let t = table_of q.table_name w in
      let id = key_in "tuple_id" q.key in
      let old = Dict.get id t in
      elim q.condition [
        | none ↦
            (ok (if q.return_old then old else none), with_table q.table_name (Dict.remove id t) w)
        | some condition ↦
            if is_there old
            then (ok old, with_table q.table_name (Dict.remove id t) w)
            else (err refusal, w)
      ];
  update_item = λ q w. (ok none, w);
  query = λ q w. (
    ok (record {
      items = some (filter (in_txn q.attribute_values) (Dict.values (table_of q.table_name w)));
      last_evaluated_key = none;
    }),
    w,
  );
  scan = λ q w. (
    ok (record { items = some (Dict.values (table_of q.table_name w)); last_evaluated_key = none }),
    w,
  );
  batch_write_item = λ table keys w. (ok none, w);
  create_table = λ q w. (ok tt, w);
  update_time_to_live = λ table attribute w. (ok tt, w);
}

abbrev task : String → String → TupleRecord
task id kind = record {
  tuple_id = id;
  attrs = ("kind", kind) ∷ [];
  payload = [];
  lease_id = id;
  written_by = "w";
  written_at = 5;
  input_tuple_id = none;
}

abbrev two_tasks : World
two_tasks = record {
  tuples =
      ("t1", tuple_to_item formats (task "t1" "test"))
      ∷ ("t2", tuple_to_item formats (task "t2" "build"))
      ∷ [];
  uncommitted = ("t3", txn_item formats "x1" (task "t3" "lint")) ∷ [];
  taken = [];
}

abbrev builds : Dict String
builds = ("kind", "build") ∷ []

abbrev lints : Dict String
lints = ("kind", "lint") ∷ []

-- The same in memory.
abbrev two_local : InMemorySpaceStore
two_local = record empty {
  tuples = ("t1", task "t1" "test") ∷ ("t2", task "t2" "build") ∷ [];
  uncommitted = ("x1", task "t3" "lint" ∷ []) ∷ [];
}

-- A transaction that takes its own write and a visible tuple.
abbrev taking : World
taking =
    (take_match client formats new 1 builds (some "x1")
      (take_match client formats new 1 lints (some "x1") two_tasks).1).1

take_match_run :
    (take_match client formats new 1 builds (some "x1") two_tasks).0
    ≡ ok (some (some (task "t2" "build")))
unfolding take_match scan_all query_by_pk first_match tuple_to_item tuple_from_item Paging.pages
    Paging.push_all filter Dict.get txn_item Items.read_texts Matcher.matches all
    Matcher.parse_template Matcher.op_matches Matcher.parse_value Text.strip_prefix take_committed
    TestTable.count TestTable.tally
take_match_run = refl

abort_txn_run :
    (abort_txn client formats new 1 "x1" taking).0
    ≡ ok (some (task "t3" "lint" ∷ [], task "t2" "build" ∷ []))
unfolding take_match scan_all query_by_pk first_match tuple_to_item tuple_from_item Paging.pages
    Paging.push_all filter Dict.get txn_item Items.read_texts Matcher.matches all
    Matcher.parse_template Matcher.op_matches Matcher.parse_value Text.strip_prefix take_committed
    TestTable.count TestTable.tally abort_txn restore_takes drop_buffered delete_buffered restore
    is_own_write own_item insert Dict.remove Dict.insert
abort_txn_run = refl

commit_txn_run :
    (commit_txn client formats new 1 "x1" two_tasks).0 ≡ ok (some (task "t3" "lint" ∷ [], []))
unfolding take_match scan_all query_by_pk first_match tuple_to_item tuple_from_item Paging.pages
    Paging.push_all filter Dict.get txn_item Items.read_texts Matcher.matches all
    Matcher.parse_template Matcher.op_matches Matcher.parse_value Text.strip_prefix take_committed
    TestTable.count TestTable.tally commit_txn flush_writes drop_buffered delete_buffered insert
commit_txn_run = refl

two_tasks-Represents : Represents client formats new two_tasks two_local
unfolding tuple_to_item tuple_from_item read_tuples filter Dict.get txn_item Items.read_texts
    TestTable.count TestTable.tally
two_tasks-Represents = record {
  visible = record {
    page = λ key. record { items = some (Dict.values two_tasks.tuples); last_evaluated_key = none };
    rest = λ key. Dict.values two_tasks.tuples;
    left = λ key. 0;
    answers = λ key. refl;
    last = λ key e. refl;
    next = λ key from e. cc;
    falls = λ key from e. cc;
  };
  written = λ id. record {
    page = λ key. record {
      items = some (filter (in_txn ((":pk", str id) ∷ [])) (Dict.values two_tasks.uncommitted));
      last_evaluated_key = none;
    };
    rest = λ key. filter (in_txn ((":pk", str id) ∷ [])) (Dict.values two_tasks.uncommitted);
    left = λ key. 0;
    answers = λ key. refl;
    last = λ key e. refl;
    next = λ key from e. cc;
    falls = λ key from e. cc;
  };
  visible_tuples = refl;
  written_tuples = λ id. elim (Bool-cases ("x1" == id)) [ inl e ↦ rw e refl | inr e ↦ rw e refl ];
}

-- The transaction has taken its own write and a visible tuple, and writes another tuple.
abbrev busy : World
busy = record {
  tuples = ("t1", tuple_to_item formats (task "t1" "test")) ∷ [];
  uncommitted = ("t4", txn_item formats "x1" (task "t4" "build")) ∷ [];
  taken =
      ("t3", own_item formats "x1" (task "t3" "lint"))
      ∷ ("t2", txn_item formats "x1" (task "t2" "build"))
      ∷ [];
}

abbrev buffered_items : String → Dict Item → List Item
buffered_items id m = filter (in_txn ((":pk", str id) ∷ [])) (Dict.values m)

abbrev one_page :
    (table_name id : String) (w : World)
    → (p : Pages (key_page client table_name "txn_id" id) w) × ((p.rest none
          ≡ buffered_items id (table_of table_name w))
        × (p.left none < 1))
one_page table_name id w = (
  record {
    page = λ key. record {
      items = some (buffered_items id (table_of table_name w));
      last_evaluated_key = none;
    };
    rest = λ key. buffered_items id (table_of table_name w);
    left = λ key. 0;
    answers = λ key. refl;
    last = λ key e. refl;
    next = λ key from e. cc;
    falls = λ key from e. cc;
  },
  (refl, omega arith),
)

abbrev buffers : Buffers client new
buffers = record {
  rows = λ w id. Dict.get id w.tuples;
  written = λ w id. (buffered_items id w.uncommitted, 1);
  taken = λ w id. (buffered_items id w.taken, 1);
  written_pages = λ id w. one_page new.uncommitted_table id w;
  taken_pages = λ id w. one_page new.txn_taken_table id w;
  put = λ id item w e.
      let named : key_in "tuple_id" item ≡ id = ap id_of e in
      (
        tt,
        (
          λ j.
              subst
                (λ k.
                  Dict.get j (Dict.insert k item w.tuples)
                  ≡ (if id == j then some item else Dict.get j w.tuples))
                (sym named) (get-insert id j item w.tuples),
          refl,
        ),
      );
  delete_written = λ txn_id id w. (tt, (refl, refl));
  delete_taken = λ txn_id id w. (tt, refl);
}

ends_exact_example :
    let commit = commit_txn client formats new 1 "x1" busy in
    let abort = abort_txn client formats new 1 "x1" busy in
    ((commit.0 ≡ ok (some (task "t4" "build" ∷ [], task "t3" "lint" ∷ task "t2" "build" ∷ [])))
      × (buffers.rows commit.1 ≡ landed formats (task "t4" "build" ∷ []) (buffers.rows busy)))
    × ((abort.0 ≡ ok (some (task "t4" "build" ∷ task "t3" "lint" ∷ [], task "t2" "build" ∷ [])))
        × (buffers.rows abort.1 ≡ landed formats (task "t2" "build" ∷ []) (buffers.rows busy)))
unfolding tuple_to_item tuple_from_item read_tuples filter Dict.get txn_item own_item is_own_write
    Items.read_texts TestTable.count TestTable.tally
ends_exact_example =
    ends_exact client formats new buffers 1 "x1" busy (task "t4" "build" ∷ [])
      (task "t3" "lint" ∷ task "t2" "build" ∷ []) refl refl (omega arith) (omega arith)
