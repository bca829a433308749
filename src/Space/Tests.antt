-- ===== src/Space/Tests.antt =====
-- Runs of the Space's store, and the theorems at concrete inputs.
use coordin.Common.{
  String, true, Option, none, some, err, List, [], ◌∷◌, ok, ◌≡◌, refl, arith, ◌++◌, ◌==◌, find,
  eq_iff,
}
use coordin.Common.Dict
use coordin.Common.Dict.{Dict}
use coordin.Space.{TupleRecord}
use coordin.Space.Store.{
  InMemorySpaceStore, empty, take_match, abort_txn, commit_txn, buffer, or_else,
}
use coordin.Error.{unavailable}
use coordin.Lease.Leasing.{Leasing}
use coordin.Space.Manager.{SpaceManager, TxnEnlister}
use coordin.Space.Waiting.{Wakeup, take}
use coordin.Space.Service.{parse_txn_id}
use coordin.Space.Blocking.{Answers, read-Answers}
use coordin.Space.Waiting.{read}
use coordin.Registry.Matcher
use coordin.Common.Text
use coordin.Common.{all}
use coordin.Space.Manager.{try_take}
use coordin.Space.Store.{take_committed}
use coordin.Space.Waiting.{wait_to_take}
use coordin.Space.Ending.{tuple_id, commit_txn_exact}
use coordin.Space.Taking.{IsTuples, Take, take_match-Take}
use coordin.Space.Isolation.{Op, writes, takes, run, run-abort_txn}

abbrev task : String → String → TupleRecord
task id kind = record {
  tuple_id = id;
  attrs = ("kind", kind) ∷ [];
  payload = [];
  lease_id = id;
  written_by = "w";
  written_at = 5;
  input_tuple_id = none;
}

abbrev one_task : InMemorySpaceStore
one_task = record empty { tuples = ("t1", task "t1" "build") ∷ []; lease_index = ("t1", "t1") ∷ [] }

one_task-IsTuples : IsTuples one_task.tuples
unfolding Dict.get
one_task-IsTuples = (refl, refl, tt)

abbrev builds : Dict String
builds = ("kind", "build") ∷ []

take_match-Take_example :
    Take builds
      (some "x1")
      one_task
      (take_match builds (some "x1") one_task).0
      (take_match builds (some "x1") one_task).1
take_match-Take_example = take_match-Take builds (some "x1") one_task one_task-IsTuples

-- A transaction that takes the task, writes another, and takes that one too.
abbrev script : List Op
script = takes builds ∷ writes (task "t2" "build") ∷ takes builds ∷ writes (task "t3" "test") ∷ []

run-abort_txn_example :
    Dict.get "t1" (abort_txn "x1" (run "x1" script one_task)).1.tuples
    ≡ Dict.get "t1" one_task.tuples
unfolding Dict.get
run-abort_txn_example = run-abort_txn "x1" script one_task one_task-IsTuples refl "t1"

abbrev writing : InMemorySpaceStore
writing = record one_task { uncommitted = ("x1", task "t2" "build" ∷ task "t3" "test" ∷ []) ∷ [] }

commit_txn_exact_example :
    ((commit_txn "x1" writing).0
      ≡ ok (
        buffer "x1" writing.uncommitted,
        buffer "x1" writing.txn_taken ++ buffer "x1" writing.txn_self_taken,
      ))
    × ((k : String)
        → Dict.get k (commit_txn "x1" writing).1.tuples
          ≡ or_else
              (find (λ r. tuple_id r == k) (buffer "x1" writing.uncommitted))
              (Dict.get k writing.tuples))
unfolding Dict.get
commit_txn_exact_example =
    commit_txn_exact "x1" writing (((λ e. ground (arith, eq_iff "t3" "t2", e)), tt), (tt, tt))

-- A grantor that cannot be reached.
abbrev unreachable : Leasing Unit
unreachable = record {
  grant = λ resource ttl s. (err (unavailable "leases"), s);
  renew = λ lease_id ttl s. (err (unavailable "leases"), s);
  cancel = λ lease_id s. (err (unavailable "leases"), s);
}

abbrev no_gateway : Option (TxnEnlister Unit)
no_gateway = none

abbrev space : SpaceManager Unit Unit
space = record {
  store = empty;
  leases = tt;
  tuple_tx = [];
  expiry_tx = [];
  txns = tt;
  participant_endpoint = none;
  enlisted = [];
}

-- A lag, and a tuple of another kind, before one that the template matches.
abbrev before : List (Wakeup Unit Unit)
before =
    record { event = none; since = λ s. s }
    ∷ record { event = some (task "t3" "test"); since = λ s. s }
    ∷ []

read-Answers_example :
    Answers builds
      (read unreachable no_gateway builds none true
        (before ++ record { event = some (task "t2" "build"); since = λ s. s } ∷ [])
        space).0
unfolding Matcher.matches all Matcher.parse_template Dict.get Matcher.op_matches Matcher.parse_value
    Text.strip_prefix
read-Answers_example =
    read-Answers unreachable no_gateway builds none before [] (task "t2" "build") (λ s. s) space
      refl

-- The other callers left the broadcast tuple in the store, and one of them gets it.
take_waits :
    (take unreachable no_gateway builds none true
      (record { event = some (task "t1" "build"); since = λ s. record s { store = one_task } } ∷ [])
      space).0
    ≡ ok (some (task "t1" "build"))
unfolding take try_take take_match take_committed find wait_to_take Matcher.matches all
    Matcher.parse_template Dict.get Matcher.op_matches Matcher.parse_value Text.strip_prefix
take_waits = refl

take_comes_late :
    (take unreachable no_gateway builds none true
      (record { event = some (task "t1" "build"); since = λ s. s } ∷ [])
      space).0
    ≡ ok none
unfolding take try_take take_match take_committed find wait_to_take Matcher.matches all
    Matcher.parse_template Dict.get Matcher.op_matches Matcher.parse_value Text.strip_prefix
take_comes_late = refl

parse_txn_id_empty : parse_txn_id "" ≡ none
unfolding parse_txn_id
parse_txn_id_empty = refl
