-- ===== src/Space/Store.antt =====
-- The in-memory tuple store with its buffers per transaction
-- (djinn/providers/local/src/space_store.rs). Each method runs alone, so the retry of `take_match`
-- after a lost race does not arise.
use coordin.Common.{
  String, Bool, true, false, Option, none, some, List, [], ◌∷◌, ◌++◌, ok, gets, find, filter, ◌||◌,
  ◌==◌, for_each,
}
use coordin.Common.Dict
use coordin.Common.Dict.{Dict}
use coordin.Error.{Method}
use coordin.Registry.Matcher.{parse_template, matches}
use coordin.Space.{TupleRecord, SpaceWatchRecord}

pub record InMemorySpaceStore : Type 0 where
  pub tuples : Dict TupleRecord
  pub lease_index : Dict String
  pub watches : Dict SpaceWatchRecord
  pub watch_lease_index : Dict String
  pub uncommitted : Dict (List TupleRecord)
  pub txn_taken : Dict (List TupleRecord)
  pub txn_self_taken : Dict (List TupleRecord)
  pub txn_lease_index : Dict (String × String)

abbrev pub empty : InMemorySpaceStore
empty = record {
  tuples = [];
  lease_index = [];
  watches = [];
  watch_lease_index = [];
  uncommitted = [];
  txn_taken = [];
  txn_self_taken = [];
  txn_lease_index = [];
}

-- `get(&txn_id)`, where no buffer reads as an empty one.
abbrev pub or_empty : Option (List TupleRecord) → List TupleRecord
or_empty none = []
or_empty (some records) = records

abbrev pub buffer : String → Dict (List TupleRecord) → List TupleRecord
buffer txn_id m = or_empty (Dict.get txn_id m)

-- `entry(txn_id).or_default().push(record)`
abbrev pub push : String → TupleRecord → Dict (List TupleRecord) → Dict (List TupleRecord)
push txn_id r m = Dict.insert txn_id (buffer txn_id m ++ r ∷ []) m

abbrev pub keep_first :
    TupleRecord → Option (TupleRecord × List TupleRecord) → Option (TupleRecord × List TupleRecord)
keep_first r none = none
keep_first r (some (found, rest)) = some (found, r ∷ rest)

-- `position(p)` followed by `remove(pos)`: the first that passes, and the others.
unfoldable pub remove_first :
    (TupleRecord → Bool) → List TupleRecord → Option (TupleRecord × List TupleRecord)
remove_first p [] = none
remove_first p (r ∷ rs) =
    let rest = remove_first p rs in elim (p r) [ true ↦ some (r, rs) | false ↦ keep_first r rest ]

unfoldable pub insert : TupleRecord → Method InMemorySpaceStore Unit
insert r s = (
  ok tt,
  record s {
    tuples = Dict.insert r.tuple_id r s.tuples;
    lease_index = Dict.insert r.lease_id r.tuple_id s.lease_index;
  },
)

unfoldable pub insert_uncommitted : String → TupleRecord → Method InMemorySpaceStore Unit
insert_uncommitted txn_id r s = (
  ok tt,
  record s {
    txn_lease_index = Dict.insert r.lease_id (txn_id, r.tuple_id) s.txn_lease_index;
    uncommitted = push txn_id r s.uncommitted;
  },
)

unfoldable pub get : String → Method InMemorySpaceStore (Option TupleRecord)
get tuple_id = gets λ s. Dict.get tuple_id s.tuples

unfoldable pub remove : String → Method InMemorySpaceStore (Option TupleRecord)
remove tuple_id s = elim (Dict.get tuple_id s.tuples) [
  | some r ↦ (
    ok (some r),
    record s {
      tuples = Dict.remove tuple_id s.tuples;
      lease_index = Dict.remove r.lease_id s.lease_index;
    },
  )
  | none ↦ (ok none, s)
]

-- The turn of one buffer in the search for a tuple of a transaction.
abbrev pub take_id :
    String → String → Dict (List TupleRecord) → Option (TupleRecord × Dict (List TupleRecord))
take_id txn_id tuple_id m = elim (Dict.get txn_id m) [
  | none ↦ none
  | some records ↦ elim (remove_first (λ r. r.tuple_id == tuple_id) records) [
    | none ↦ none
    | some (r, rest) ↦ some (r, Dict.insert txn_id rest m)
  ]
]

-- `for buffers in [&self.uncommitted, &self.txn_taken, &self.txn_self_taken]`
unfoldable pub remove_buffered :
    String → String → InMemorySpaceStore → Option TupleRecord × InMemorySpaceStore
remove_buffered txn_id tuple_id s = elim (take_id txn_id tuple_id s.uncommitted) [
  | some (r, m) ↦ (some r, record s { uncommitted = m })
  | none ↦ elim (take_id txn_id tuple_id s.txn_taken) [
    | some (r, m) ↦ (some r, record s { txn_taken = m })
    | none ↦ elim (take_id txn_id tuple_id s.txn_self_taken) [
      | some (r, m) ↦ (some r, record s { txn_self_taken = m })
      | none ↦ (none, s)
    ]
  ]
]

unfoldable pub remove_from_txn :
    String → InMemorySpaceStore → Option TupleRecord × InMemorySpaceStore
unfolding remove_buffered
remove_from_txn lease_id s = elim (Dict.get lease_id s.txn_lease_index) [
  | none ↦ (none, s)
  | some (txn_id, tuple_id) ↦
      remove_buffered txn_id tuple_id
        (record s { txn_lease_index = Dict.remove lease_id s.txn_lease_index })
]

unfoldable pub remove_by_lease : String → Method InMemorySpaceStore (Option TupleRecord)
unfolding remove_from_txn
remove_by_lease lease_id s =
    let t = record s { lease_index = Dict.remove lease_id s.lease_index } in
    let buffered = remove_from_txn lease_id t in
    elim (Dict.get lease_id s.lease_index) [
      | none ↦ (ok buffered.0, buffered.1)
      | some tuple_id ↦ elim (Dict.get tuple_id s.tuples) [
        | some r ↦ (ok (some r), record t { tuples = Dict.remove tuple_id s.tuples })
        | none ↦ (ok buffered.0, buffered.1)
      ]
    ]

abbrev pub matches_tuple : Dict String → TupleRecord → Bool
matches_tuple template r = matches (parse_template template) r.attrs

-- What the transaction itself has written, where there is one.
abbrev pub own_writes : Option String → InMemorySpaceStore → List TupleRecord
own_writes none s = []
own_writes (some txn_id) s = buffer txn_id s.uncommitted

abbrev pub or_else : Option TupleRecord → Option TupleRecord → Option TupleRecord
or_else none other = other
or_else (some r) other = some r

unfoldable pub find_match :
    Dict String → Option String → Method InMemorySpaceStore (Option TupleRecord)
find_match template txn_id = gets λ s.
    or_else (find (matches_tuple template) (Dict.values s.tuples))
      (find (matches_tuple template) (own_writes txn_id s))

-- An empty template has no operator, so it matches everything.
abbrev pub is_empty : Dict String → Bool
is_empty [] = true
is_empty (_ ∷ _) = false

unfoldable pub find_all_matches :
    Dict String → Option String → Method InMemorySpaceStore (List TupleRecord)
find_all_matches template txn_id = gets λ s.
    filter (λ r. is_empty template || matches_tuple template r) (Dict.values s.tuples)
    ++ filter (λ r. is_empty template || matches_tuple template r) (own_writes txn_id s)

abbrev pub hold : Option String → TupleRecord → InMemorySpaceStore → InMemorySpaceStore
hold none r s = s
hold (some txn_id) r s = record s {
  txn_lease_index = Dict.insert r.lease_id (txn_id, r.tuple_id) s.txn_lease_index;
  txn_taken = push txn_id r s.txn_taken;
}

-- The search of the committed tuples.
unfoldable pub take_committed :
    Dict String → Option String → Method InMemorySpaceStore (Option TupleRecord)
take_committed template txn_id s = elim (find (λ e. matches_tuple template e.1) s.tuples) [
  | none ↦ (ok none, s)
  | some (tuple_id, r) ↦ (
    ok (some r),
    hold txn_id r (record s {
      tuples = Dict.remove tuple_id s.tuples;
      lease_index = Dict.remove r.lease_id s.lease_index;
    }),
  )
]

abbrev pub take_own :
    Dict String → Option String → InMemorySpaceStore → Option (TupleRecord × InMemorySpaceStore)
take_own template none s = none
take_own template (some txn_id) s =
    elim (remove_first (matches_tuple template) (buffer txn_id s.uncommitted)) [
      | none ↦ none
      | some (r, rest) ↦ some (
        r,
        record s {
          uncommitted = Dict.insert txn_id rest s.uncommitted;
          txn_self_taken = push txn_id r s.txn_self_taken;
        },
      )
    ]

unfoldable pub take_match :
    Dict String → Option String → Method InMemorySpaceStore (Option TupleRecord)
take_match template txn_id s = elim (take_own template txn_id s) [
  | some (r, t) ↦ (ok (some r), t)
  | none ↦ take_committed template txn_id s
]

-- The body of the loops that make buffered tuples visible.
abbrev pub publish : TupleRecord → InMemorySpaceStore → InMemorySpaceStore
publish r s = record s {
  txn_lease_index = Dict.remove r.lease_id s.txn_lease_index;
  tuples = Dict.insert r.tuple_id r s.tuples;
  lease_index = Dict.insert r.lease_id r.tuple_id s.lease_index;
}

abbrev pub forget : TupleRecord → InMemorySpaceStore → InMemorySpaceStore
forget r s = record s { txn_lease_index = Dict.remove r.lease_id s.txn_lease_index }

-- The flushed and the taken tuples.
unfoldable pub commit_txn : String → Method InMemorySpaceStore (List TupleRecord × List TupleRecord)
commit_txn txn_id s =
    let flushed = buffer txn_id s.uncommitted in
    let t =
      for_each flushed publish (record s { uncommitted = Dict.remove txn_id s.uncommitted }) in
    let taken = buffer txn_id t.txn_taken ++ buffer txn_id t.txn_self_taken in
    (
      ok (flushed, taken),
      for_each taken forget (record t {
        txn_taken = Dict.remove txn_id t.txn_taken;
        txn_self_taken = Dict.remove txn_id t.txn_self_taken;
      }),
    )

-- The discarded and the restored tuples.
unfoldable pub abort_txn : String → Method InMemorySpaceStore (List TupleRecord × List TupleRecord)
abort_txn txn_id s =
    let discarded = buffer txn_id s.uncommitted ++ buffer txn_id s.txn_self_taken in
    let t = for_each discarded forget (record s {
      uncommitted = Dict.remove txn_id s.uncommitted;
      txn_self_taken = Dict.remove txn_id s.txn_self_taken;
    }) in
    let restored = buffer txn_id t.txn_taken in
    (
      ok (discarded, restored),
      for_each restored publish (record t { txn_taken = Dict.remove txn_id t.txn_taken }),
    )

abbrev pub has_some : List TupleRecord → Bool
has_some [] = false
has_some (_ ∷ _) = true

unfoldable pub has_txn : String → Method InMemorySpaceStore Bool
has_txn txn_id = gets λ s.
    has_some (buffer txn_id s.uncommitted)
    || (has_some (buffer txn_id s.txn_taken) || has_some (buffer txn_id s.txn_self_taken))

unfoldable pub list_all : Method InMemorySpaceStore (List TupleRecord)
list_all = gets λ s. Dict.values s.tuples

unfoldable pub create_watch : SpaceWatchRecord → Method InMemorySpaceStore Unit
create_watch w s = (
  ok tt,
  record s {
    watches = Dict.insert w.watch_id w s.watches;
    watch_lease_index = Dict.insert w.lease_id w.watch_id s.watch_lease_index;
  },
)

unfoldable pub remove_watch : String → Method InMemorySpaceStore Unit
remove_watch watch_id s = elim (Dict.get watch_id s.watches) [
  | some w ↦ (
    ok tt,
    record s {
      watches = Dict.remove watch_id s.watches;
      watch_lease_index = Dict.remove w.lease_id s.watch_lease_index;
    },
  )
  | none ↦ (ok tt, s)
]

unfoldable pub remove_watch_by_lease : String → Method InMemorySpaceStore (Option SpaceWatchRecord)
remove_watch_by_lease lease_id s = elim (Dict.get lease_id s.watch_lease_index) [
  | some watch_id ↦ (
    ok (Dict.get watch_id s.watches),
    record s {
      watch_lease_index = Dict.remove lease_id s.watch_lease_index;
      watches = Dict.remove watch_id s.watches;
    },
  )
  | none ↦ (ok none, s)
]

unfoldable pub list_watches : Method InMemorySpaceStore (List SpaceWatchRecord)
list_watches = gets λ s. Dict.values s.watches
