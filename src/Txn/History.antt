-- ===== src/Txn/History.antt =====
-- Transactions over any sequence of calls on the coordinator
-- (djinn/crates/coordin8-txn/src/manager.rs).
use Prim.Native.String.{◌++◌ as concat}
use coordin.Common.{
  ℕ, String, false, some, List, [], ◌∷◌, Result, ◌≡◌, ◌≢◌, refl, ◌==◌, eq_iff, ap, All, Bool-cases,
  Result-cases, inl, inr,
}
use coordin.Common.Dict
use coordin.Common.Dict.{get-insert}
use coordin.Error.{Error}
use coordin.Lease.Leasing.{Leasing}
use coordin.Txn.{active, TransactionRecord}
use coordin.Txn.Store
use coordin.Txn.Store.{InMemoryTxnStore}
use coordin.Txn.Participants.{Network}
use coordin.Txn.Manager.{TxnManager, begin, enlist, commit, abort, abort_expired}
use coordin.Txn.Single.{commit-decided, abort-decided, abort_expired-decided}
use coordin.Txn.Frame.{
  still, enlist-decided, enlist-other, commit-other, abort-other, abort_expired-other,
}

-- The calls on the coordinator, and the expiry of a lease.
pub data Call : Type 0 where
  begins : ℕ → String → ℕ → Call
  enlists : String → String → ℕ → Call
  commits aborts expires : String → Call

module _ {L : Type 0} (leasing : Leasing L) (net : Network)
    (check : String → Result Error Unit) where
  abbrev pub step : Call → TxnManager L → TxnManager L
  step (begins now txn_id ttl_secs) s = (begin leasing net now txn_id ttl_secs s).1
  step (enlists txn_id endpoint crash_count) s = (enlist check txn_id endpoint crash_count s).1
  step (commits txn_id) s = (commit leasing net txn_id s).1
  step (aborts txn_id) s = (abort leasing net txn_id s).1
  step (expires txn_id) s = (abort_expired leasing net txn_id s).1

  abbrev pub run : List Call → TxnManager L → TxnManager L
  run [] s = s
  run (c ∷ cs) s = run cs (step c s)

-- A transaction id is drawn at random, so a new transaction has another one.
abbrev pub Fresh : String → Call → Type 0
Fresh txn_id (begins now other ttl_secs) = (other == txn_id) ≡ false
Fresh txn_id _ = Unit

module _ {L : Type 0} (leasing : Leasing L) (net : Network)
    (check : String → Result Error Unit) where
  begin-other :
      (now : ℕ) (j k : String) (ttl_secs : ℕ) (s : TxnManager L)
      → (j == k) ≡ false
      → Dict.get k (begin leasing net now j ttl_secs s).1.store ≡ Dict.get k s.store
  unfolding begin Store.create
  begin-other now j k ttl_secs s other =
      elim (Result-cases (leasing.grant (concat "txn:" j) ttl_secs s.leases).0) [
        | inl (lease, e) ↦ rw (e, begin) (rw (get-insert, other) refl)
        | inr (x, e) ↦ rw (e, begin) refl
      ]

  -- A call on `j` leaves the record under `k` if it does so for equal and for different ids.
  either :
      (j k : String) (r : TransactionRecord) (s t : TxnManager L)
      → (Dict.get j s.store ≡ some r → t ≡ s)
      → ((j == k) ≡ false → Dict.get k t.store ≡ Dict.get k s.store)
      → Dict.get k s.store ≡ some r
      → Dict.get k t.store ≡ some r
  either j k r s t f g found = elim (Bool-cases (j == k)) [
    | inl same ↦ let j_eq : j ≡ k = (eq_iff j k).0 same in rw (f (rw j_eq found)) found
    | inr other ↦ rw (g other) found
  ]

  step-decided :
      (c : Call) (txn_id : String) (r : TransactionRecord) (s : TxnManager L)
      → Fresh txn_id c
      → Dict.get txn_id s.store ≡ some r
      → r.state ≢ active
      → Dict.get txn_id (step leasing net check c s).store ≡ some r
  step-decided (begins now j ttl_secs) k r s fresh found n =
      rw (begin-other now j k ttl_secs s fresh) found
  step-decided (enlists j endpoint crash_count) k r s fresh found n =
      either j k r s (enlist check j endpoint crash_count s).1
        (λ e. enlist-decided leasing net check j endpoint crash_count r s e n)
        (enlist-other leasing net check j k endpoint crash_count s) found
  step-decided (commits j) k r s fresh found n =
      either j k r s (commit leasing net j s).1 (λ e. (commit-decided leasing net j r s e n).0)
        (commit-other leasing net j k s) found
  step-decided (aborts j) k r s fresh found n =
      either j k r s (abort leasing net j s).1 (λ e. (abort-decided leasing net j r s e n).0)
        (abort-other leasing net j k s) found
  step-decided (expires j) k r s fresh found n =
      either j k r s (abort_expired leasing net j s).1
        (λ e.
          ap (λ x. x.1)
            (abort_expired-decided leasing net j s (λ x f. still (Dict.get j s.store) r x e n f)))
        (abort_expired-other leasing net j k s) found

  -- Once a transaction is no longer active, its record stays as it is through any calls and expiries
  -- that do not begin a transaction of the same id: an outcome is never changed, and no participant
  -- is added.
  pub run_keeps_outcome :
      (cs : List Call) (txn_id : String) (r : TransactionRecord) (s : TxnManager L)
      → All (Fresh txn_id) cs
      → Dict.get txn_id s.store ≡ some r
      → r.state ≢ active
      → Dict.get txn_id (run leasing net check cs s).store ≡ some r
  run_keeps_outcome [] txn_id r s fresh found n = found
  run_keeps_outcome (c ∷ cs) txn_id r s fresh found n =
      run_keeps_outcome cs txn_id r (step leasing net check c s) fresh.1
        (step-decided c txn_id r s fresh.0 found n) n
