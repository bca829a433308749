-- ===== src/Txn/Frame.antt =====
-- A call on one transaction leaves the records of the others
-- (djinn/crates/coordin8-txn/src/manager.rs).
use coordin.Common.{
  ℕ, String, true, false, Option, some, List, [], ◌∷◌, all, Result, ok, err, ◌≡◌, ◌≢◌, refl, arith,
  ◌==◌, eq_refl, Bool-cases, Option-cases, Result-cases, inl, inr,
}
use coordin.Common.Dict
use coordin.Common.Dict.{get-insert}
use coordin.Error.{Error, transaction_terminal}
use coordin.Lease.Leasing.{Leasing}
use coordin.Txn.{
  TransactionState, active, voting, prepared, committed, aborted, ParticipantRecord, PrepareVote,
  TransactionRecord, same_state,
}
use coordin.Txn.Store
use coordin.Txn.Store.{InMemoryTxnStore}
use coordin.Txn.Participants.{Network, call_prepare_and_commit, prepare_and_commit}
use coordin.Txn.Manager.{
  TxnManager, enlist, commit, abort, abort_expired, commit_claimed, commit_none, commit_single,
  commit_two_phase, single_vote, fetch,
}
use coordin.Txn.Calls.{is_yes, do_abort_participants_lem}
use coordin.Txn.TwoPhase.{
  claim, put, dialled, get-put, votes_of, two_phase-yes, two_phase-no, transition_lem,
  commit-active, update_state_if_lem,
}
use coordin.Txn.Single.{
  not_active, commit-decided, abort-decided, abort_expired-active, abort_expired-decided,
}

pub same_active : (a : TransactionState) → same_state a active ≡ true → a ≡ active
same_active active h = refl
same_active voting h = cc
same_active prepared h = cc
same_active committed h = cc
same_active aborted h = cc

pub differs : (a : TransactionState) → same_state a active ≡ false → a ≢ active
differs active h e = cc
differs voting h e = cc
differs prepared h e = cc
differs committed h e = cc
differs aborted h e = cc

pub still :
    (m : Option TransactionRecord) (r x : TransactionRecord)
    → m ≡ some r
    → r.state ≢ active
    → m ≡ some x
    → x.state ≢ active
still m r x e n f h = n (cc)

-- A participant is added only to an active transaction.
add_participant-decided :
    (j : String) (p : ParticipantRecord) (r : TransactionRecord) (m : InMemoryTxnStore)
    → Dict.get j m ≡ some r
    → same_state r.state active ≡ false
    → Store.add_participant j p m ≡ (err (transaction_terminal j), m)
unfolding Store.add_participant
add_participant-decided j p r m h e = ground arith

add_participant-other :
    (j k : String) (p : ParticipantRecord) (m : InMemoryTxnStore)
    → (j == k) ≡ false
    → Dict.get k (Store.add_participant j p m).1 ≡ Dict.get k m
unfolding Store.add_participant
add_participant-other j k p m other = elim (Option-cases (Dict.get j m)) [
  | inl e ↦ rw (e, Store.add_participant) refl
  | inr (r, e) ↦ elim (Bool-cases (same_state r.state active)) [
    | inl x ↦ rw (e, Store.add_participant) (rw x (rw (get-insert, other) refl))
    | inr x ↦ rw (e, Store.add_participant) (rw x refl)
  ]
]

module _ {L : Type 0} (leasing : Leasing L) (net : Network) where
  put-other :
      (j k : String) (to : TransactionState) (r : TransactionRecord) (s : TxnManager L)
      → (j == k) ≡ false
      → Dict.get k (put j to r s).store ≡ Dict.get k s.store
  put-other j k to r s other = rw (get-insert, other) refl

  vote-other :
      (j k : String) (r : TransactionRecord) (vote : Result Error PrepareVote) (s : TxnManager L)
      → (j == k) ≡ false
      → Dict.get j s.store ≡ some (record r { state = voting })
      → Dict.get k (single_vote leasing net j (record r { state = voting }) vote s).1.store
        ≡ Dict.get k s.store
  vote-other j k r (ok PrepareVote.prepared) s other h =
      rw (transition_lem j voting committed (record r { state = voting }) s h refl)
        (rw (get-insert, other) refl)
  vote-other j k r (ok PrepareVote.not_changed) s other h =
      rw (transition_lem j voting committed (record r { state = voting }) s h refl)
        (rw (get-insert, other) refl)
  vote-other j k r (ok PrepareVote.aborted) s other h =
      rw (transition_lem j voting aborted (record r { state = voting }) s h refl)
        (rw (get-insert, other) refl)
  vote-other j k r (err e) s other h = refl

  two_phase-other :
      (j k : String) (r : TransactionRecord) (s : TxnManager L)
      → (j == k) ≡ false
      → Dict.get k
          (commit_two_phase leasing net j (record r { state = voting }) (claim j r s)).1.store
        ≡ Dict.get k s.store
  two_phase-other j k r s other = elim (Bool-cases (all is_yes (votes_of leasing net j r s))) [
    | inl x ↦
        rw (two_phase-yes leasing net j r s x)
          (rw (get-insert, other) (rw (get-insert, other) (rw (get-insert, other) refl)))
    | inr x ↦
        rw (two_phase-no leasing net j r s x) (rw (get-insert, other) (rw (get-insert, other) refl))
  ]

  claimed-other :
      (j k : String) (r : TransactionRecord) (ps : List ParticipantRecord) (s : TxnManager L)
      → (j == k) ≡ false
      → Dict.get k
          (commit_claimed leasing net j
            (record r { state = voting; participants = ps })
            ps
            (claim j (record r { participants = ps }) s)).1.store
        ≡ Dict.get k s.store
  unfolding commit_none commit_single
  claimed-other j k r [] s other =
      rw
        (transition_lem j voting committed (record r { state = voting; participants = [] })
          (claim j (record r { participants = [] }) s)
          (get-put j voting (record r { participants = [] }) s) refl)
        (rw (get-insert, other) (rw (get-insert, other) refl))
  claimed-other j k r (p ∷ []) s other =
      let r₁ : TransactionRecord = record r { participants = p ∷ [] } in
      rw
        (vote-other j k r₁ (call_prepare_and_commit net p.endpoint j s.calls)
          (dialled (prepare_and_commit p.endpoint j ∷ []) (claim j r₁ s)) other
          (get-put j voting r₁ s))
        (rw (get-insert, other) refl)
  claimed-other j k r (p ∷ q ∷ ps) s other =
      two_phase-other j k (record r { participants = p ∷ q ∷ ps }) s other

  -- A commit of one transaction leaves the records of the others.
  pub commit-other :
      (j k : String) (s : TxnManager L)
      → (j == k) ≡ false
      → Dict.get k (commit leasing net j s).1.store ≡ Dict.get k s.store
  commit-other j k s other = elim (Option-cases (Dict.get j s.store)) [
    | inl e ↦ unfold commit Store.update_state_if in rw (e, commit, Store.update_state_if) refl
    | inr (r, e) ↦ elim (Bool-cases (same_state r.state active)) [
      | inl is_active ↦
          rw (commit-active leasing net j r s e (same_active r.state is_active))
            (claimed-other j k r r.participants s other)
      | inr not ↦ rw ((commit-decided leasing net j r s e (differs r.state not)).0) refl
    ]
  ]

  abort_claimed-other :
      (j k : String) (r : TransactionRecord) (s : TxnManager L)
      → (j == k) ≡ false
      → Dict.get j s.store ≡ some r
      → r.state ≡ active
      → Dict.get k (abort leasing net j s).1.store ≡ Dict.get k s.store
  unfolding abort fetch Store.get
  abort_claimed-other j k r s other found e =
      rw (update_state_if_lem j active aborted r s.store found e) (
        rw (get-insert, eq_refl)
          (rw (do_abort_participants_lem j r.participants (put j aborted r s))
            (rw (get-insert, other) refl)))

  pub abort-other :
      (j k : String) (s : TxnManager L)
      → (j == k) ≡ false
      → Dict.get k (abort leasing net j s).1.store ≡ Dict.get k s.store
  abort-other j k s other = elim (Option-cases (Dict.get j s.store)) [
    | inl e ↦ unfold abort Store.update_state_if in rw (e, abort, Store.update_state_if) refl
    | inr (r, e) ↦ elim (Bool-cases (same_state r.state active)) [
      | inl is_active ↦ abort_claimed-other j k r s other e (same_active r.state is_active)
      | inr not ↦ rw ((abort-decided leasing net j r s e (differs r.state not)).0) refl
    ]
  ]

  pub abort_expired-other :
      (j k : String) (s : TxnManager L)
      → (j == k) ≡ false
      → Dict.get k (abort_expired leasing net j s).1.store ≡ Dict.get k s.store
  abort_expired-other j k s other = elim (Option-cases (Dict.get j s.store)) [
    | inl e ↦ rw (abort_expired-decided leasing net j s (λ r found. absurd (cc))) refl
    | inr (r, e) ↦ elim (Bool-cases (same_state r.state active)) [
      | inl is_active ↦
          rw (abort_expired-active leasing net j r s e (same_active r.state is_active))
            (rw (get-insert, other) refl)
      | inr not ↦
          rw
            (abort_expired-decided leasing net j s
              (λ x f. still (Dict.get j s.store) r x e (differs r.state not) f))
            refl
    ]
  ]

  -- An enlistment with a transaction that is no longer active stores nothing.
  pub enlist-decided :
      (check : String → Result Error Unit) (j endpoint : String) (crash_count : ℕ)
      (r : TransactionRecord) (s : TxnManager L)
      → Dict.get j s.store ≡ some r
      → r.state ≢ active
      → (enlist check j endpoint crash_count s).1 ≡ s
  unfolding enlist
  enlist-decided check j endpoint crash_count r s found n = elim (Result-cases (check endpoint)) [
    | inl (u, e) ↦
        rw (e, enlist)
          (rw
            (add_participant-decided j (record { endpoint = endpoint; crash_count = crash_count }) r
              s.store found (not_active r.state n))
            refl)
    | inr (x, e) ↦ rw (e, enlist) refl
  ]

  pub enlist-other :
      (check : String → Result Error Unit) (j k endpoint : String) (crash_count : ℕ)
      (s : TxnManager L)
      → (j == k) ≡ false
      → Dict.get k (enlist check j endpoint crash_count s).1.store ≡ Dict.get k s.store
  unfolding enlist
  enlist-other check j k endpoint crash_count s other = elim (Result-cases (check endpoint)) [
    | inl (u, e) ↦
        rw (e, enlist)
          (add_participant-other j k (record { endpoint = endpoint; crash_count = crash_count })
            s.store other)
    | inr (x, e) ↦ rw (e, enlist) refl
  ]
